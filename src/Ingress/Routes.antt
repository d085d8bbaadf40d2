-- ===== src/Ingress/Routes.antt =====
-- src/ingress/pingora/state.rs, first part: host names, the route table, the certificate store.
pub mod Domains
pub mod Table
use denia.Prelude.{
  ℕ, zero, suc, ◌+◌, ◌≡◌, ◌↔◌, refl, ap, arith, Bool, true, false, ◌||◌, ◌&&◌, not, List, [], ◌∷◌,
  map, leb, ltb, ◌==◌, if◌then◌else◌, any, all, retain, length, Option, none, some, Outcome, ok,
  err, Map, Key, lookup, insert,
}

-- A string as its Unicode scalar values.
abbrev pub Text : Type 0
Text = List ℕ

-- The length of a scalar value in UTF-8.
abbrev pub len_utf8 : ℕ → ℕ
len_utf8 c = if ltb c 128 then 1 else if ltb c 2048 then 2 else if ltb c 65536 then 3 else 4

-- `str::len`.
abbrev pub byte_len : Text → ℕ
byte_len [] = 0
byte_len (c ∷ cs) = len_utf8 c + byte_len cs

abbrev pub between : ℕ → ℕ → ℕ → Bool
between lo hi c = leb lo c && leb c hi

-- `char::is_whitespace`: the property White_Space of Unicode.
unfoldable pub is_whitespace : ℕ → Bool
is_whitespace c =
    between 9 13 c
    || (c == 32
        || (c == 133
            || (c == 160
                || (c == 5760
                    || (between 8192 8202 c
                        || (between 8232 8233 c || (c == 8239 || (c == 8287 || c == 12288))))))))

-- `trim().is_empty()`.
abbrev pub is_blank : Text → Bool
is_blank = all is_whitespace

-- The test of one byte. A scalar value that is not ASCII has only bytes that are not, and an ASCII
-- one is its own byte; ASCII whitespace is 9, 10, 12, 13 and 32, and all but the last are control
-- characters too.
abbrev pub is_forbidden : ℕ → Bool
is_forbidden c =
    not (ltb c 128)
    || ((ltb c 32 || c == 127)
        || ((c == 32 || (c == 9 || (c == 10 || (c == 12 || c == 13)))) || (c == 96 || c == 42)))

abbrev pub dot : ℕ
dot = 46

abbrev pub starts_with_dot : Text → Bool
starts_with_dot [] = false
starts_with_dot (c ∷ cs) = c == dot

unfoldable pub ends_with_dot : Text → Bool
ends_with_dot [] = false
ends_with_dot (c ∷ []) = c == dot
ends_with_dot (c ∷ d ∷ cs) = ends_with_dot (d ∷ cs)

-- A character more in the first part.
abbrev pub push_first : ℕ → List Text → List Text
push_first c [] = (c ∷ []) ∷ []
push_first c (p ∷ ps) = (c ∷ p) ∷ ps

-- `split('.')`.
unfoldable pub split_dots : Text → List Text
split_dots [] = [] ∷ []
split_dots (c ∷ cs) = let rest = split_dots cs in if c == dot then [] ∷ rest else push_first c rest

abbrev pub max_domain_len : ℕ
max_domain_len = 253

abbrev pub max_label_len : ℕ
max_label_len = 63

abbrev pub bad_label : Text → Bool
bad_label label = byte_len label == 0 || ltb max_label_len (byte_len label)

abbrev pub to_lower : ℕ → ℕ
to_lower c = if between 65 90 c then c + 32 else c

-- `str::to_ascii_lowercase`.
abbrev pub to_ascii_lowercase : Text → Text
to_ascii_lowercase = map to_lower

pub data IngressError : Type 0 where
  empty_service_name missing_domain : IngressError
  invalid_domain : Text → IngressError

unfoldable pub validate_domain : Text → Outcome Text IngressError
unfolding is_whitespace ends_with_dot split_dots
validate_domain domain =
    if is_blank domain
    then err (invalid_domain domain)
    else if ltb max_domain_len (byte_len domain)
    then err (invalid_domain domain)
    else if any is_forbidden domain
    then err (invalid_domain domain)
    else if starts_with_dot domain || ends_with_dot domain
    then err (invalid_domain domain)
    else if any bad_label (split_dots domain)
    then err (invalid_domain domain)
    else ok (to_ascii_lowercase domain)

-- The order of the table's keys: that of the bytes, which in UTF-8 is that of the scalar values.
unfoldable pub text_precedes : Text → Text → Bool
text_precedes [] [] = false
text_precedes [] (d ∷ ds) = true
text_precedes (c ∷ cs) [] = false
text_precedes (c ∷ cs) (d ∷ ds) =
    let rest = text_precedes cs ds in if ltb c d then true else c == d && rest

unfoldable pub text_eq : Text → Text → Bool
text_eq [] [] = true
text_eq [] (d ∷ ds) = false
text_eq (c ∷ cs) [] = false
text_eq (c ∷ cs) (d ∷ ds) = c == d && text_eq cs ds

pub text_eq_iff : (a b : Text) → (text_eq a b ≡ true) ↔ (a ≡ b)
unfolding text_eq
text_eq_iff [] [] = (λ h. refl, λ h. refl)
text_eq_iff [] (d ∷ ds) = (λ h. cc, λ h. cc)
text_eq_iff (c ∷ cs) [] = (λ h. cc, λ h. cc)
text_eq_iff (c ∷ cs) (d ∷ ds) = ground (arith, text_eq_iff cs ds)

instance abbrev pub text_key : Key Text
text_key = record { beq = text_eq; precedes = text_precedes; beq_iff = text_eq_iff }

-- `service_id` is the key of the pool.
pub record RouteSpec : Type 0 where
  pub route_key : Text
  pub service_name : Text
  pub service_id : Text
  pub domains : List Text
  pub tls : Bool

abbrev pub RouteTable : Type 0
RouteTable = Map Text RouteSpec

-- `map(validate_domain).collect::<Result<Vec<_>, _>>()`: the first error ends it.
unfoldable pub validate_each : List Text → Outcome (List Text) IngressError
unfolding validate_domain
validate_each [] = ok []
validate_each (d ∷ ds) = elim (validate_domain d) [
  | err e ↦ err e
  | ok host ↦ elim (validate_each ds) [ err e ↦ err e | ok hosts ↦ ok (host ∷ hosts) ]
]

unfoldable pub insert_each : RouteSpec → List Text → RouteTable → RouteTable
insert_each spec [] table = table
insert_each spec (host ∷ hosts) table = insert_each spec hosts (insert host spec table)

abbrev pub upserted :
    RouteSpec
    → Outcome (List Text) IngressError
    → RouteTable
    → Outcome (Unit {0}) IngressError × RouteTable
upserted spec (err e) table = (err e, table)
upserted spec (ok hosts) table = (ok tt, insert_each spec hosts table)

abbrev pub no_domains : List Text → Bool
no_domains [] = true
no_domains (d ∷ ds) = false

unfoldable pub try_upsert : RouteSpec → RouteTable → Outcome (Unit {0}) IngressError × RouteTable
unfolding insert_each validate_each
try_upsert spec table =
    if is_blank spec.service_name
    then (err empty_service_name, table)
    else if no_domains spec.domains
    then (err missing_domain, table)
    else upserted spec (validate_each spec.domains) table

unfoldable pub remove : Text → RouteTable → RouteTable
remove route_key = retain (λ (host, spec). not (text_eq spec.route_key route_key))

unfoldable pub resolve : Text → RouteTable → Option RouteSpec
resolve host table = lookup (to_ascii_lowercase host) table

unfoldable pub host_count : RouteTable → ℕ
host_count table = length table

-- A certificate chain with its key is handed through unread: `C`.
unfoldable pub try_insert :
    {C : Type 0} → Text → C → Map Text C → Outcome (Unit {0}) IngressError × Map Text C
unfolding validate_domain
try_insert sni cert store = elim (validate_domain sni) [
  | err e ↦ (err e, store)
  | ok key ↦ (ok tt, insert key cert store)
]

unfoldable pub get : {C : Type 0} → Text → Map Text C → Option C
get sni store = lookup (to_ascii_lowercase sni) store

unfoldable pub sni_names : {C : Type 0} → Map Text C → List Text
sni_names store = map (λ (sni, cert). sni) store
