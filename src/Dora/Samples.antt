-- ===== src/Dora/Samples.antt =====
-- Formats that the exporter can have: a record is the list of its numbers, each as its marks and a
-- comma, and a time as its marks.
use Prim.Native.Nat.{zero, suc}
use Prim.Native.Char.{code}
use native.Mathlib.Nat.{zero-add}
use glidepath.Prelude.{
  ℕ, ◌+◌, ◌-◌, ◌≡◌, refl, ap, ap₂, ◌∙◌, String, Option, some, none, if◌then◌else◌, eqb, ltb, length,
  take, drop, arith, List, [], ◌∷◌, ◌++◌, true,
}
use glidepath.Prelude.Dict.{Dict}
use glidepath.Dora.Exporter.{Metrics, Formats, Answers}
use glidepath.Dora.Paths.{Application, OutcomeRequest}

abbrev pub marks : ℕ → String → String
marks zero s = s
marks (suc n) s = String.◌∷◌ "1" (marks n s)

abbrev write : List ℕ → String
write [] = ""
write (List.◌∷◌ n ns) = marks n (String.◌∷◌ "," (write ns))

abbrev read : ℕ → String → List ℕ
read n String.[] = []
read n (String.◌∷◌ c s) = if eqb (code c) b',' then n ∷ read 0 s else read (suc n) s

read-marks :
    (n m : ℕ) (s : String) → read m (marks n (String.◌∷◌ "," s)) ≡ List.◌∷◌ (m + n) (read 0 s)
read-marks zero m s = ap (λ k. List.◌∷◌ k (read 0 s)) (omega arith)
read-marks (suc n) m s = read-marks n (suc m) s ∙ ap (λ k. List.◌∷◌ k (read 0 s)) (omega arith)

pub read-write : (ns : List ℕ) → read 0 (write ns) ≡ ns
read-write [] = refl
read-write (List.◌∷◌ n ns) =
    read-marks n 0 (write ns) ∙ ap₂ (λ k r. List.◌∷◌ k r) (zero-add n) (read-write ns)

-- The lead times are counted before the restore times follow.
abbrev numbers : Metrics ℕ → List ℕ
numbers m = List.◌∷◌ m.deployments (
    List.◌∷◌ m.succeeded
      (List.◌∷◌ m.failed (List.◌∷◌ (length m.lead_times) (m.lead_times ++ m.restore_times))))

abbrev of_numbers : List ℕ → Option (Metrics ℕ)
of_numbers (List.◌∷◌ d (List.◌∷◌ s (List.◌∷◌ f (List.◌∷◌ n ts)))) = some (record {
  deployments = d;
  succeeded = s;
  failed = f;
  lead_times = take n ts;
  restore_times = drop n ts;
})
of_numbers _ = none

take-front : (xs ys : List ℕ) → take (length xs) (xs ++ ys) ≡ xs
take-front [] ys = refl
take-front (List.◌∷◌ x xs) ys = ap (List.◌∷◌ x) (take-front xs ys)

drop-front : (xs ys : List ℕ) → drop (length xs) (xs ++ ys) ≡ ys
drop-front [] ys = refl
drop-front (List.◌∷◌ x xs) ys = drop-front xs ys

pub of_numbers-numbers : (m : Metrics ℕ) → of_numbers (numbers m) ≡ some m
of_numbers-numbers m =
    ap₂
      (λ l r. some (record {
        deployments = m.deployments;
        succeeded = m.succeeded;
        failed = m.failed;
        lead_times = l;
        restore_times = r;
      }))
      (take-front m.lead_times m.restore_times) (drop-front m.lead_times m.restore_times)

abbrev time_of : String → ℕ
time_of String.[] = 0
time_of (String.◌∷◌ c s) = suc (time_of s)

abbrev pub marked : Formats ℕ
marked = record {
  parse = λ s. some (time_of s);
  format = λ n. marks n "";
  seconds = λ a b. a - b;
  is_positive = λ n. ltb 0 n;
  encode = λ m. write (numbers m);
  decode = λ s. of_numbers (read 0 s);
  decode-encode = λ m. ap of_numbers (read-write (numbers m)) ∙ of_numbers-numbers m;
}

abbrev pub all_well : Answers
all_well = record {
  reads_failures = true;
  writes_failures = true;
  reads_metrics = true;
  writes_metrics = true;
}

-- A release of `shop` that fails, one that succeeds, and an Application of `depot` with a release.
abbrev pub failed_release : OutcomeRequest
failed_release = record {
  app_namespace = "team-a";
  app_name = "shop";
  phase = "Failed";
  finished_at = "111";
  flow_start_time = "1";
}

abbrev pub good_release : OutcomeRequest
good_release = record {
  app_namespace = "team-a";
  app_name = "shop";
  phase = "Succeeded";
  finished_at = "11111";
  flow_start_time = "1111";
}

abbrev pub depot : Application
depot = record {
  annotations =
      List.◌∷◌ ("hangar.io/dora-pending", "true")
        (List.◌∷◌ ("hangar.io/dora-app-namespace", "team-b")
          (List.◌∷◌ ("hangar.io/dora-app", "depot") []));
  phase = "Succeeded";
  started_at = "11";
  finished_at = "111";
}

-- The entry of `shop` as an exporter before this one left it: one release that failed.
abbrev pub left_state : Dict String
left_state = List.◌∷◌ ("team-a.shop", ",,1,,") []
