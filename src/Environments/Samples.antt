-- ===== src/Environments/Samples.antt =====
-- An application `shop` with a Ground and two Flight environments, and the services that answer for it.
use Prim.Native.Nat.{suc}
use glidepath.Prelude.{ℕ, String, List, [], ◌∷◌, Option, some, none, ◌==◌, if◌then◌else◌}
use glidepath.Environments.Yaml.{
  Node, document, mapping, sequence, scalar_node, end, next, done, entry, Scalars,
}
use glidepath.Environments.Rollback.{Record}
use glidepath.Environments.Runs.{template, accepted, reads, ApiServer, ReleaseRun}
use glidepath.Environments.Source.{Libraries, text, GitHub, App, PromoteRequest}
use glidepath.Environments.StartRollback.{RollbackRequest}

abbrev str : String → Node
str s = scalar_node "!!str" s

abbrev environment : String → String → Node
environment name tier = mapping (entry (str "name") (str name) (entry (str "tier") (str tier) done))

abbrev pub shop_config : Node
shop_config = document (
    mapping (
      entry (str "deploy")
        (mapping (
          entry (str "environments")
            (sequence (
              next (environment "dev" "ground")
                (next (environment "staging" "flight") (next (environment "live" "flight") end))))
            done))
        done))

abbrev pub shop_scalars : Scalars
shop_scalars = record { is_true = λ s. s == "true"; is_nonzero = λ s. s == "1"; value = λ n. none }

-- The release file of `staging`.
abbrev shop_release : Node
shop_release = mapping (
    entry (str "release")
      (mapping (
        entry (str "image")
          (mapping (
            entry (str "repository") (str "ghcr.io/acme/shop")
              (entry (str "tag") (str "1.2.0-abcdef1") done)))
          done))
      done)

abbrev pub shop_libraries : Libraries
shop_libraries = record {
  parse = λ raw. if raw == "cicd" then some shop_config else some shop_release;
  scalars = shop_scalars;
  fold = λ a b. a == b;
}

abbrev pub shop_github : GitHub
shop_github = record {
  contents = λ repo path. if path == "c1/staging/release.yaml" then some "release" else none;
  raw = λ repo. text "cicd";
  commit_sha = λ repo sha. some "abcdef1234567890";
  open_pr = λ repo branch. some "";
}

abbrev pub shop : App
shop = record { owner = "acme"; namespace = "shop-cicd"; name = "shop" }

abbrev pub shop_server : ApiServer
shop_server = record {
  templates = λ name. template (λ params. some name);
  creates = accepted;
  rereads = reads;
}

abbrev pub to_live : PromoteRequest
to_live = record {
  cluster = "c2";
  source_env = "staging";
  source_cluster = "c1";
  source_image_repo = "";
  source_image_tag = "";
}

abbrev pub shop_run : ReleaseRun
shop_run = record {
  env = "live";
  cluster = "c2";
  git_url = "https://github.com/acme/shop";
  git_revision = "abcdef1234567890";
  image_ref = "ghcr.io/acme/shop:1.2.0-abcdef1";
  initiator = "ann";
  rollback = none;
}

abbrev pub key : String
key = "0123456789"

abbrev count : String → ℕ
count String.[] = 0
count (String.◌∷◌ c s) = suc (count s)

abbrev pub marks : String → Option ℕ
marks s = some (count s)

-- Two releases of `live`: the second runs.
abbrev pub release : String → String → String → Record
release n state when = record {
  name = n;
  entries =
      ("state", state)
      ∷ ("prCreatedAt", when)
      ∷ ("healthyAt", when)
      ∷ ("image", n)
      ∷ ("gitRevision", "abcdef1234567890")
      ∷ ("gitUrl", "https://github.com/acme/shop")
      ∷ ("releaseId", n)
      ∷ [];
}

abbrev pub live_releases : List Record
live_releases = release "r1" "superseded" "|" ∷ release "r2" "healthy" "||" ∷ []

abbrev pub back_to_r1 : RollbackRequest
back_to_r1 = record { cluster = "c2"; target_release_id = "r1"; reason = "errors" }
