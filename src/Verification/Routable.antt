-- ===== src/Verification/Routable.antt =====
-- Host names that may be verified are such as the ingress routes.
use mathlib.Core.Path.{ap₂}
use denia.Prelude.{
  ℕ, ◌≤◌, ◌≡◌, refl, sym, ap, ◌∙◌, inl, inr, Bool, false, not, ◌||◌, ◌&&◌, List, [], ◌∷◌, arith,
  ◌==◌, any, ok, Bool-cases, Option,
}
use denia.Ingress.Routes.{
  Text, byte_len, is_whitespace, is_blank, is_forbidden, dot, starts_with_dot, ends_with_dot,
  push_first, split_dots, max_domain_len, bad_label, to_lower, to_ascii_lowercase, validate_domain,
}
use denia.Ingress.Routes.Domains.{Valid, Valid-validate_domain}
use denia.Deploy.Repo.{IpAddr}
use denia.Deploy.Sources.{trim_start, trim_end, is_empty}
use denia.Verification.{is_bad_byte, bad_hostname_label, check_hostname, validate_hostname}

-- A byte that no dot and no part of a label is.
abbrev is_foreign : ℕ → Bool
is_foreign c = is_bad_byte c && not (c == dot)

foreign_in_label :
    (c : ℕ) (ps : List Text)
    → any (any is_bad_byte) (push_first c ps) ≡ (is_bad_byte c || any (any is_bad_byte) ps)
foreign_in_label c [] = ground arith
foreign_in_label c (p ∷ ps) = ground arith

-- A text whose labels have no bad byte has none but dots.
any-is_foreign :
    (t : Text) → any (any is_bad_byte) (split_dots t) ≡ false → any is_foreign t ≡ false
unfolding split_dots
any-is_foreign [] = λ h. refl
any-is_foreign (c ∷ cs) = elim (Bool-cases (c == dot)) [
  | inl e ↦ rw e (λ h. ground (arith, any-is_foreign cs h))
  | inr e ↦ rw e (λ h.
      let both = sym (foreign_in_label c (split_dots cs)) ∙ h in
      ground (arith, both, any-is_foreign cs))
]

any-is_forbidden : (t : Text) → any is_foreign t ≡ false → any is_forbidden t ≡ false
any-is_forbidden [] h = refl
any-is_forbidden (c ∷ cs) h = ground (arith, any-is_forbidden cs)

lowered_already : (t : Text) → any is_foreign t ≡ false → t ≡ to_ascii_lowercase t
lowered_already [] h = refl
lowered_already (c ∷ cs) h =
    let head : c ≡ to_lower c = ground arith in
    let tail : any is_foreign cs ≡ false = ground arith in ap₂ ◌∷◌ head (lowered_already cs tail)

-- A text that ends with a dot has an empty label behind the first.
abbrev empty_behind : List Text → Bool
empty_behind [] = false
empty_behind (p ∷ ps) = any is_empty ps

empty_behind-push_first :
    (c : ℕ) (ps : List Text) → empty_behind (push_first c ps) ≡ empty_behind ps
empty_behind-push_first c [] = refl
empty_behind-push_first c (p ∷ ps) = refl

behind_empty : (ps : List Text) → any is_empty ps ≡ false → empty_behind ps ≡ false
behind_empty [] h = refl
behind_empty (p ∷ ps) h = ground arith

no_dot_last : (t : Text) → empty_behind (split_dots t) ≡ false → ends_with_dot t ≡ false
unfolding split_dots ends_with_dot
no_dot_last [] = λ h. refl
no_dot_last (c ∷ []) = λ h. ground arith
no_dot_last (c ∷ d ∷ cs) = elim (Bool-cases (c == dot)) [
  | inl e ↦ rw e (λ h. no_dot_last (d ∷ cs) (behind_empty (split_dots (d ∷ cs)) h))
  | inr e ↦
      rw e (λ h. no_dot_last (d ∷ cs) (sym (empty_behind-push_first c (split_dots (d ∷ cs))) ∙ h))
]

no_dot_first : (t : Text) → any is_empty (split_dots t) ≡ false → starts_with_dot t ≡ false
unfolding split_dots
no_dot_first [] h = refl
no_dot_first (c ∷ cs) h = ground arith

visible : (t : Text) → is_empty t ≡ false → any is_foreign t ≡ false → is_blank t ≡ false
unfolding is_whitespace
visible [] h k = absurd (ground arith)
visible (c ∷ cs) h k = ground arith

label-plain : (label : Text) → bad_hostname_label label ≡ false → bad_label label ≡ false
label-plain [] h = absurd (ground arith)
label-plain (c ∷ cs) h = ground arith

any-is_empty : (ps : List Text) → any bad_hostname_label ps ≡ false → any is_empty ps ≡ false
any-is_empty [] h = refl
any-is_empty (p ∷ ps) h = ground (arith, any-is_empty ps)

any-is_bad_byte :
    (ps : List Text) → any bad_hostname_label ps ≡ false → any (any is_bad_byte) ps ≡ false
any-is_bad_byte [] h = refl
any-is_bad_byte (p ∷ ps) h = ground (arith, any-is_bad_byte ps)

any-bad_label : (ps : List Text) → any bad_hostname_label ps ≡ false → any bad_label ps ≡ false
any-bad_label [] h = refl
any-bad_label (p ∷ ps) h = ground (arith, any-bad_label ps, label-plain p)

check_hostname-Checked :
    (parse_ip : Text → Option IpAddr) (given host : Text)
    → check_hostname parse_ip given ≡ ok host
    → (is_empty given ≡ false)
      × (any bad_hostname_label (split_dots given) ≡ false)
      × (given ≡ host)
unfolding check_hostname
check_hostname-Checked parse_ip given host h = (ground arith, ground arith, ground arith)

labels-Valid :
    (host : Text)
    → is_empty host ≡ false
    → any bad_hostname_label (split_dots host) ≡ false
    → byte_len host ≤ max_domain_len
    → Valid host host
labels-Valid host full labels short =
    let plain = any-is_foreign host (any-is_bad_byte (split_dots host) labels) in
    let empty = any-is_empty (split_dots host) labels in
    record {
      visible = visible host full plain;
      short = short;
      plain = any-is_forbidden host plain;
      no_dot_first = no_dot_first host empty;
      no_dot_last = no_dot_last host (behind_empty (split_dots host) empty);
      labels = any-bad_label (split_dots host) labels;
      lowered = lowered_already host plain;
    }

-- A host name that may be verified, and is at most 253 bytes long, is accepted by the ingress as
-- it stands: the ingress neither refuses nor changes it.
pub validate_hostname-routable :
    (parse_ip : Text → Option IpAddr) (input host : Text)
    → validate_hostname parse_ip input ≡ ok host
    → byte_len host ≤ max_domain_len
    → validate_domain host ≡ ok host
unfolding validate_hostname
validate_hostname-routable parse_ip input host h short =
    let (full, labels, same) =
      check_hostname-Checked parse_ip (trim_end is_whitespace (trim_start input)) host h in
    Valid-validate_domain host host (
      labels-Valid host (ap is_empty (sym same) ∙ full)
        (ap (λ t. any bad_hostname_label (split_dots t)) (sym same) ∙ labels) short)
