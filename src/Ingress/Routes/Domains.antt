-- ===== src/Ingress/Routes/Domains.antt =====
-- What a host name that validates is.
use mathlib.Core.Path.{ap₂}
use denia.Prelude.{
  ℕ, ◌+◌, ◌≤◌, ◌≡◌, refl, sym, ap, ◌∙◌, inl, inr, false, ◌||◌, ◌&&◌, List, [], ◌∷◌, map, arith, ltb,
  ◌==◌, any, ok, Bool-cases,
}
use denia.Ingress.Routes.{
  Text, len_utf8, byte_len, is_whitespace, is_blank, is_forbidden, dot, starts_with_dot,
  ends_with_dot, push_first, split_dots, max_domain_len, max_label_len, bad_label, to_lower,
  to_ascii_lowercase, validate_domain,
}

-- Lower case changes none of the tests of a character.
lower_len : (c : ℕ) → len_utf8 (to_lower c) ≡ len_utf8 c
lower_len c = ground arith

lower_space : (c : ℕ) → is_whitespace (to_lower c) ≡ is_whitespace c
unfolding is_whitespace
lower_space c = ground arith

lower_forbidden : (c : ℕ) → is_forbidden (to_lower c) ≡ is_forbidden c
lower_forbidden c = ground arith

lower_dot : (c : ℕ) → (to_lower c == dot) ≡ (c == dot)
lower_dot c = ground arith

lower_lower : (c : ℕ) → to_lower (to_lower c) ≡ to_lower c
lower_lower c = ground arith

byte_len-lower : (cs : Text) → byte_len (to_ascii_lowercase cs) ≡ byte_len cs
byte_len-lower [] = refl
byte_len-lower (c ∷ cs) = ap₂ ◌+◌ (lower_len c) (byte_len-lower cs)

is_blank-lower : (cs : Text) → is_blank (to_ascii_lowercase cs) ≡ is_blank cs
is_blank-lower [] = refl
is_blank-lower (c ∷ cs) = ap₂ ◌&&◌ (lower_space c) (is_blank-lower cs)

forbidden-lower : (cs : Text) → any is_forbidden (to_ascii_lowercase cs) ≡ any is_forbidden cs
forbidden-lower [] = refl
forbidden-lower (c ∷ cs) = ap₂ ◌||◌ (lower_forbidden c) (forbidden-lower cs)

starts-lower : (cs : Text) → starts_with_dot (to_ascii_lowercase cs) ≡ starts_with_dot cs
starts-lower [] = refl
starts-lower (c ∷ cs) = lower_dot c

ends-lower : (cs : Text) → ends_with_dot (to_ascii_lowercase cs) ≡ ends_with_dot cs
unfolding ends_with_dot
ends-lower [] = refl
ends-lower (c ∷ []) = lower_dot c
ends-lower (c ∷ d ∷ cs) = ends-lower (d ∷ cs)

push_first-lower :
    (c : ℕ) (ps : List Text)
    → push_first (to_lower c) (map to_ascii_lowercase ps) ≡ map to_ascii_lowercase (push_first c ps)
push_first-lower c [] = refl
push_first-lower c (p ∷ ps) = refl

split-lower :
    (cs : Text) → split_dots (to_ascii_lowercase cs) ≡ map to_ascii_lowercase (split_dots cs)
unfolding split_dots
split-lower [] = refl
split-lower (c ∷ cs) = elim (Bool-cases (c == dot)) [
  | inl t ↦ rw (lower_dot c, t) (ap (λ u. [] ∷ u) (split-lower cs))
  | inr f ↦
      rw (lower_dot c, f)
        (ap (push_first (to_lower c)) (split-lower cs) ∙ push_first-lower c (split_dots cs))
]

labels-lower : (ps : List Text) → any bad_label (map to_ascii_lowercase ps) ≡ any bad_label ps
labels-lower [] = refl
labels-lower (p ∷ ps) =
    ap₂ ◌||◌ (ap (λ n. n == 0 || ltb max_label_len n) (byte_len-lower p)) (labels-lower ps)

lower-lower : (cs : Text) → to_ascii_lowercase (to_ascii_lowercase cs) ≡ to_ascii_lowercase cs
lower-lower [] = refl
lower-lower (c ∷ cs) = ap₂ ◌∷◌ (lower_lower c) (lower-lower cs)

-- A name that validates is none of what the code rejects, and its result is its lower case.
pub record Valid (domain host : Text) : Type 0 where
  pub visible : is_blank domain ≡ false
  pub short : byte_len domain ≤ max_domain_len
  pub plain : any is_forbidden domain ≡ false
  pub no_dot_first : starts_with_dot domain ≡ false
  pub no_dot_last : ends_with_dot domain ≡ false
  pub labels : any bad_label (split_dots domain) ≡ false
  pub lowered : host ≡ to_ascii_lowercase domain

pub validate_domain-Valid :
    (domain host : Text) → validate_domain domain ≡ ok host → Valid domain host
unfolding validate_domain
validate_domain-Valid domain host h = record {
  visible = ground arith;
  short = ground arith;
  plain = ground arith;
  no_dot_first = ground arith;
  no_dot_last = ground arith;
  labels = ground arith;
  lowered = ground arith;
}

pub Valid-validate_domain :
    (domain host : Text) → Valid domain host → validate_domain domain ≡ ok host
unfolding validate_domain
Valid-validate_domain domain host v =
    ground (arith, v.visible, v.short, v.plain, v.no_dot_first, v.no_dot_last, v.labels, v.lowered)

-- The host name that a validation gives is in normal form: it validates, and gives itself. So a
-- name that was stored after a validation is accepted unchanged by another, and is found under any
-- spelling of its case.
pub validate_domain_stable :
    (domain host : Text)
    → validate_domain domain ≡ ok host
    → (validate_domain host ≡ ok host) × (to_ascii_lowercase host ≡ host)
validate_domain_stable domain host h =
    let v = validate_domain-Valid domain host h in
    let same : to_ascii_lowercase host ≡ host = rw (v.lowered) (lower-lower domain) in
    (
      Valid-validate_domain host host (record {
        visible = rw (v.lowered) (is_blank-lower domain ∙ v.visible);
        short = rw (v.lowered) (rw (byte_len-lower domain) v.short);
        plain = rw (v.lowered) (forbidden-lower domain ∙ v.plain);
        no_dot_first = rw (v.lowered) (starts-lower domain ∙ v.no_dot_first);
        no_dot_last = rw (v.lowered) (ends-lower domain ∙ v.no_dot_last);
        labels =
            rw (v.lowered) (
              ap (any bad_label) (split-lower domain)
              ∙ labels-lower (split_dots domain)
              ∙ v.labels);
        lowered = sym same;
      }),
      same,
    )
