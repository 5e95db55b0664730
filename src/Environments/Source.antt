-- ===== src/Environments/Source.antt =====
-- glidepath/api/internal/environments/promote.go, `resolveSource`: the image and the commit that a promotion
-- takes, from the files of its source environment.
use glidepath.Prelude.{
  String, Bool, ◌&&◌, not, List, [], ◌∷◌, Option, some, none, ◌==◌, if◌then◌else◌,
}
use glidepath.Prelude.Text.{concat}
use glidepath.Environments.Yaml.{Node, Scalars, map_get, scalar, text_of, unmarshal}
use glidepath.Environments.Runs.{
  Answer, fails, gives, and_then, refused, broken, Repos, repos_of, extract_short_sha,
}

-- The libraries: the YAML parser with its scalars, and `strings.EqualFold`.
pub record Libraries : Type 0 where
  pub parse : String → Option Node
  pub scalars : Scalars
  pub fold : String → String → Bool

-- What GitHub answers, by repository: a file (none if it cannot be read), cicd.yaml, the commit that a
-- short name is of, and the open pull request of a branch, "" if there is none.
pub data ConfigRead : Type 0 where
  text : String → ConfigRead
  no_file : ConfigRead
  no_answer : ConfigRead

pub record GitHub : Type 0 where
  pub contents : String → String → Option String
  pub raw : String → ConfigRead
  pub commit_sha : String → String → Option String
  pub open_pr : String → String → Option String

pub record App : Type 0 where
  pub owner : String
  pub namespace : String
  pub name : String

-- `PromoteRequest`.
pub record PromoteRequest : Type 0 where
  pub cluster : String
  pub source_env : String
  pub source_cluster : String
  pub source_image_repo : String
  pub source_image_tag : String

abbrev pub both : String → String → Bool
both a b = not (a == "") && not (b == "")

-- `source`.
pub record Source : Type 0 where
  pub image_repo : String
  pub image_tag : String
  pub git_revision : String
  pub git_url : String

-- `getIn`.
abbrev pub get_in : List String → Option Node → Option Node
get_in [] n = n
get_in (k ∷ ks) n = get_in ks (map_get k n)

-- `orElse`.
abbrev or_text : Option String → String → String
or_text none s = s
or_text (some v) s = v

abbrev pub or_else : Node → String → String
or_else doc k =
    or_text (scalar (get_in ("release" ∷ "image" ∷ k ∷ []) (some doc)))
      (text_of (get_in ("rollout" ∷ "image" ∷ k ∷ []) (some doc)))

abbrev pub found_commit : Option String → Answer String
found_commit none = fails broken
found_commit (some rev) = gives rev

-- The images of a file of a Ground environment, under the keys in their order.
abbrev image_under : Node → List String → Option (String × String)
image_under doc [] = none
image_under doc (k ∷ ks) =
    let r = text_of (get_in (k ∷ "image" ∷ "repository" ∷ []) (some doc)) in
    let t = text_of (get_in (k ∷ "image" ∷ "tag" ∷ []) (some doc)) in
    if both r t then some (r, t) else image_under doc ks

-- What a Flight environment's files record.
pub record FlightImage : Type 0 where
  pub repo : String
  pub tag : String
  pub recorded : String

abbrev no_image : FlightImage
no_image = record { repo = ""; tag = ""; recorded = "" }

abbrev flight_image : Node → FlightImage
flight_image doc = record {
  repo = or_else doc "repository";
  tag = or_else doc "tag";
  recorded = text_of (get_in ("releaseTracking" ∷ "gitRevision" ∷ []) (some doc));
}

module _ (lib : Libraries) (gh : GitHub) (app : App) where
  abbrev pub repos : Repos
  repos = repos_of app.namespace app.name

  -- `ExtractShortSha`, and the commit of the source repository that it names.
  abbrev commit_of : String → Answer String
  commit_of tag =
      and_then (extract_short_sha tag) (λ sha. found_commit (gh.commit_sha repos.source sha))

  abbrev source_at : String → String → String → Source
  source_at repo tag rev = record {
    image_repo = repo;
    image_tag = tag;
    git_revision = rev;
    git_url = concat ("https://github.com/" ∷ app.owner ∷ "/" ∷ repos.source ∷ []);
  }

  abbrev source_of : String → String → Answer Source
  source_of repo tag = and_then (commit_of tag) (λ rev. gives (source_at repo tag rev))

  -- `readGroundImage`, over its candidates; none if no file has an image.
  abbrev or_later :
      Option (String × String)
      → Answer (Option (String × String))
      → Answer (Option (String × String))
  or_later none later = later
  or_later (some image) later = gives (some image)

  abbrev ground_doc :
      Option Node
      → List String
      → Answer (Option (String × String))
      → Answer (Option (String × String))
  ground_doc none keys later = fails broken
  ground_doc (some doc) keys later = or_later (image_under doc keys) later

  abbrev ground_file :
      Option String
      → List String
      → Answer (Option (String × String))
      → Answer (Option (String × String))
  ground_file none keys later = later
  ground_file (some raw) keys later = ground_doc (unmarshal lib.parse raw) keys later

  abbrev read_ground_image : String → Answer (Option (String × String))
  read_ground_image env =
      ground_file
        (gh.contents repos.source (concat ("glidepath/envs/" ∷ env ∷ ".release.yaml" ∷ [])))
        ("release" ∷ [])
        (ground_file (gh.contents repos.source (concat ("glidepath/envs/" ∷ env ∷ ".yaml" ∷ [])))
          ("release" ∷ "rollout" ∷ []) (gives none))

  abbrev ground_source : Option (String × String) → Answer Source
  ground_source none = fails refused
  ground_source (some (repo, tag)) = source_of repo tag

  -- A Flight source: the first file with an image, else what the last that could be read has.
  abbrev flight_doc : Option Node → (FlightImage → Answer FlightImage) → Answer FlightImage
  flight_doc none next = fails broken
  flight_doc (some doc) next =
      let image = flight_image doc in if both image.repo image.tag then gives image else next image

  abbrev flight_file :
      Option String → (FlightImage → Answer FlightImage) → FlightImage → Answer FlightImage
  flight_file none next image = next image
  flight_file (some raw) next image = flight_doc (unmarshal lib.parse raw) next

  abbrev read_flight_image : String → String → Answer FlightImage
  read_flight_image cluster env =
      flight_file (gh.contents repos.gitops (concat (cluster ∷ "/" ∷ env ∷ "/release.yaml" ∷ [])))
        (flight_file (gh.contents repos.gitops (concat (cluster ∷ "/" ∷ env ∷ "/values.yaml" ∷ [])))
          (λ image. gives image))
        no_image

  abbrev flight_source : FlightImage → Answer Source
  flight_source image =
      if not (both image.repo image.tag)
      then fails refused
      else if image.recorded == ""
      then source_of image.repo image.tag
      else gives (source_at image.repo image.tag image.recorded)

  -- `resolveSource`.
  unfoldable pub resolve_source : PromoteRequest → Bool → Answer Source
  resolve_source req lower =
      if req.source_env == ""
      then source_of req.source_image_repo req.source_image_tag
      else if lower
      then and_then (read_ground_image req.source_env) ground_source
      else and_then (read_flight_image req.source_cluster req.source_env) flight_source
