-- ===== src/Validate/Loops.antt =====
-- The loops of internal/validate/validate.go against the rules for each element.
use Prim.Native.String.{String}
use syscert.Base.{
  ◌≡◌, refl, ◌≢◌, ◌↔◌, inl, inr, Bool, true, false, not, ◌&&◌, Option, none, some, List, [], ◌∷◌,
  arith, All, Bool-cases, ◌+◌, ℕ,
}
use syscert.Go.Strings.{Str, lit, is_empty, str_eq_iff, contains, contains_iff, OneOf}
use syscert.Go.Filepath.{is_abs, ext}
use syscert.Go.Net.{Ip}
use syscert.Config.{DistributeTarget}
use syscert.Validate.{
  Host, is_publicly_routable, world_readable, ip_problem, ip_problems, bundle_problems,
  target_problems, targets_problems, output_problems, valid_artifacts, key_bearing,
  valid_bundle_tok,
}
use syscert.Validate.Rules.{IpFits, TokensFit, TargetFits, OutputFits}
use syscert.Validate.Parts.{
  problem_if-eq-nil, is_empty_iff, then_iff, not-false_iff, parts_iff, listed_iff,
}

pub ip_problem_iff :
    (public : Bool) (raw : Str) (o : Option Ip)
    → (ip_problem public raw o ≡ [])
      ↔ ((ip : Ip) × (o ≡ some ip) × (public ≡ true → is_publicly_routable ip ≡ true))
unfolding ip_problem
ip_problem_iff public raw none = (λ h. cc, λ h. cc h.1)
ip_problem_iff true raw (some ip) =
    (λ h. (ip, refl, λ _. ground arith), λ h. ground (arith, h.2 refl))
ip_problem_iff false raw (some ip) = (λ h. (ip, refl, λ e. cc), λ h. refl)

pub ip_problems_iff :
    (h : Host) (public : Bool) (raws : List Str)
    → (ip_problems h public raws ≡ []) ↔ All (IpFits h public) raws
unfolding ip_problems
ip_problems_iff h public [] = (λ _. tt, λ _. refl)
ip_problems_iff h public (raw ∷ raws) =
    parts_iff _ _ (ip_problem_iff public raw (h.parse_ip raw)) (ip_problems_iff h public raws)

pub bundle_problems_iff :
    (seen toks : List Str) → (bundle_problems seen toks ≡ []) ↔ TokensFit seen toks
unfolding bundle_problems
bundle_problems_iff seen [] = (λ _. tt, λ _. refl)
bundle_problems_iff seen (tok ∷ toks) =
    then_iff
      (parts_iff _ _ (listed_iff valid_bundle_tok tok _ _ _) (
        parts_iff _ _ (problem_if-eq-nil (contains seen tok) _ _ _)
          (bundle_problems_iff (tok ∷ seen) toks)))
      (λ h. (h.0, h.1.0, h.1.1), λ h. (h.0, (h.1, h.2)))

pub mode_checked :
    (mode : Str)
    → (mode ≢ [] → world_readable mode ≡ false)
    → (not (is_empty mode) && world_readable mode) ≡ false
mode_checked [] k = refl
mode_checked (c ∷ mode) k = k (λ e. cc)

pub mode_iff :
    (d : DistributeTarget)
    → ((contains key_bearing d.artifact && (not (is_empty d.mode) && world_readable d.mode))
        ≡ false)
      ↔ (OneOf d.artifact (lit "privkey" ∷ lit "bundle" ∷ [])
          → d.mode ≢ []
          → world_readable d.mode ≡ false)
unfolding target_problems
mode_iff d = (
  λ h o ne. ground (arith, (contains_iff key_bearing d.artifact).1 o, is_empty_iff d.mode),
  λ k. elim (Bool-cases (contains key_bearing d.artifact)) [
    | inl y ↦ rw y (mode_checked d.mode (k ((contains_iff key_bearing d.artifact).0 y)))
    | inr n ↦ rw n
  ],
)

pub target_problems_iff : (i : ℕ) (d : DistributeTarget) → (target_problems i d ≡ []) ↔ TargetFits d
unfolding target_problems
target_problems_iff i d =
    then_iff
      (parts_iff _ _ (listed_iff valid_artifacts d.artifact _ _ _)
        (then_iff (problem_if-eq-nil _ _ _ _) (mode_iff d)))
      (λ h. record { artifact = h.0; mode = h.1 }, λ h. (h.artifact, h.mode))

pub targets_problems_iff :
    (i : ℕ) (ds : List DistributeTarget) → (targets_problems i ds ≡ []) ↔ All TargetFits ds
unfolding targets_problems
targets_problems_iff i [] = (λ _. tt, λ _. refl)
targets_problems_iff i (d ∷ ds) =
    parts_iff _ _ (target_problems_iff i d) (targets_problems_iff (i + 1) ds)

pub output_problems_iff :
    (name suffix : Str) (why : String) (p : Str)
    → (output_problems name suffix why p ≡ []) ↔ OutputFits suffix p
unfolding output_problems
output_problems_iff name suffix why [] = (λ h. inl refl, λ h. refl)
output_problems_iff name suffix why (c ∷ p) =
    then_iff
      (parts_iff _ _ (then_iff (problem_if-eq-nil _ _ _ _) (not-false_iff (is_abs (c ∷ p)))) (
        then_iff (problem_if-eq-nil _ _ _ _)
          (then_iff (not-false_iff _) (str_eq_iff (ext (c ∷ p)) suffix))))
      (λ h. inr h, elim [ inl e ↦ cc | inr h ↦ h ])
