-- ===== src/Verification.antt =====
-- `validate_hostname` of src/verification/validation.rs: the host names that may be verified.
use denia.Prelude.{
  ℕ, Bool, true, false, not, ◌&&◌, ◌||◌, List, [], ◌∷◌, ◌==◌, ltb, if◌then◌else◌, any, Option,
  Outcome, ok, err,
}
use denia.Ingress.Routes.{Text, between, is_whitespace, split_dots, byte_len, max_label_len}
use denia.Deploy.Repo.{IpAddr}
use denia.Deploy.Sources.{trim_start, trim_end, is_empty, is_some, is_alphanumeric}
pub mod Routable

pub data HostnameError : Type 0 where
  empty invalid_character not_fqdn not_hostname : HostnameError

abbrev pub starts_alphanumeric : Text → Bool
starts_alphanumeric [] = false
starts_alphanumeric (c ∷ cs) = is_alphanumeric c

unfoldable pub ends_alphanumeric : Text → Bool
ends_alphanumeric [] = false
ends_alphanumeric (c ∷ []) = is_alphanumeric c
ends_alphanumeric (c ∷ d ∷ cs) = ends_alphanumeric (d ∷ cs)

-- The test of one byte: a scalar value that is not ASCII has only bytes that are not.
abbrev pub is_bad_byte : ℕ → Bool
is_bad_byte c = not (is_alphanumeric c || c == 45) || between 65 90 c

abbrev pub bad_hostname_label : Text → Bool
bad_hostname_label label =
    (is_empty label || ltb max_label_len (byte_len label))
    || (not (starts_alphanumeric label) || (not (ends_alphanumeric label) || any is_bad_byte label))

abbrev pub fewer_than_two : List Text → Bool
fewer_than_two [] = true
fewer_than_two (label ∷ []) = true
fewer_than_two (label ∷ next ∷ labels) = false

-- A backtick or a line break.
abbrev pub is_break : ℕ → Bool
is_break c = c == 96 || (c == 10 || c == 13)

-- A slash, a colon or a space.
abbrev pub is_separator : ℕ → Bool
is_separator c = c == 47 || (c == 58 || c == 32)

unfoldable pub check_hostname : (Text → Option IpAddr) → Text → Outcome Text HostnameError
unfolding split_dots ends_alphanumeric
check_hostname parse_ip trimmed =
    if is_empty trimmed
    then err HostnameError.empty
    else if any is_break trimmed
    then err invalid_character
    else if any is_separator trimmed
    then err not_hostname
    else if is_some (parse_ip trimmed)
    then err not_hostname
    else if fewer_than_two (split_dots trimmed)
    then err not_fqdn
    else if any bad_hostname_label (split_dots trimmed)
    then err invalid_character
    else ok trimmed

unfoldable pub validate_hostname : (Text → Option IpAddr) → Text → Outcome Text HostnameError
unfolding check_hostname trim_start trim_end
validate_hostname parse_ip input =
    check_hostname parse_ip (trim_end is_whitespace (trim_start input))
