-- ===== src/SocketApi/Protocol/Laws.antt =====
-- Lines of a client: a name, a colon and an argument, or paths between separators.
use text.Mathlib.TextLemmas.{cons-append, nil-append}
use Prim.Native.Char.{code}
use owncloud_sync_client.Common.{
  ℕ, String, ◌<>◌, ◌≡◌, refl, ap, ◌∙◌, Bool, true, false, not, ◌&&◌, none, some, List, [], ◌∷◌,
  ◌==◌, string_eq, number_eq, All, Bool-cases, inl, inr, arith,
}
use owncloud_sync_client.Common.Texts.{is_empty, split_once, strip_prefix, split, join}
use owncloud_sync_client.SocketApi.Protocol.{
  field_sep, colon, parse_named, parse_split, parse_v2, parse_command,
}

-- The character of a code does not occur in a text.
abbrev pub lacks : ℕ → String → Bool
lacks n String.[] = true
lacks n (String.◌∷◌ c s) = not (code c == n) && lacks n s

split_once-line :
    (cmd args : String)
    → lacks colon cmd ≡ true
    → split_once colon (cmd <> (":" <> args)) ≡ some (cmd, args)
unfolding split_once
split_once-line String.[] args h = rw (nil-append, cons-append, nil-append) (ground arith)
split_once-line (String.◌∷◌ c s) args h = elim (Bool-cases (code c == colon)) [
  | inl e ↦ absurd (ground (arith, h, e))
  | inr e ↦ let rest = split_once-line s args (ground (arith, h, e)) in rw (cons-append, e, rest)
]

-- The name of a command is neither empty nor a version-2 message.
abbrev is_plain : String → Bool
is_plain String.[] = false
is_plain (String.◌∷◌ c String.[]) = false
is_plain (String.◌∷◌ c (String.◌∷◌ d s)) = not (code d == b'2')

strip_prefix-plain :
    (cmd rest : String) → is_plain cmd ≡ true → strip_prefix "V2/" (cmd <> rest) ≡ none
unfolding strip_prefix
strip_prefix-plain String.[] rest h = absurd (cc h)
strip_prefix-plain (String.◌∷◌ c String.[]) rest h = absurd (cc h)
strip_prefix-plain (String.◌∷◌ c (String.◌∷◌ d s)) rest h =
    rw (cons-append, cons-append) (ground (arith, h))

is_empty-plain : (cmd rest : String) → is_plain cmd ≡ true → is_empty (cmd <> rest) ≡ false
is_empty-plain String.[] rest h = absurd (cc h)
is_empty-plain (String.◌∷◌ c s) rest h = rw cons-append refl

-- A line of a client: a name, a colon and the argument.
abbrev pub line : String → String → String
line cmd args = cmd <> (":" <> args)

pub parse_command-line :
    (debug : String → String) (cmd args : String)
    → is_plain cmd ≡ true
    → lacks colon cmd ≡ true
    → parse_command debug (line cmd args) ≡ parse_named debug cmd args
unfolding parse_command parse_v2 parse_split
parse_command-line debug cmd args plain no_colon = rw (
  is_empty-plain cmd (":" <> args) plain,
  strip_prefix-plain cmd (":" <> args) plain,
  split_once-line cmd args no_colon,
)

-- `FIELD_SEP` as a text
abbrev pub separator : String
separator = "\u{1e}"

split-lacking : (n : ℕ) (w : String) → lacks n w ≡ true → split n w ≡ w ∷ []
unfolding split
split-lacking n String.[] h = refl
split-lacking n (String.◌∷◌ c s) h = elim (Bool-cases (code c == n)) [
  | inl e ↦ absurd (ground (arith, h, e))
  | inr e ↦ rw (e, split-lacking n s (ground (arith, h, e)))
]

split-part :
    (w rest : String)
    → lacks field_sep w ≡ true
    → split field_sep (w <> (separator <> rest)) ≡ w ∷ split field_sep rest
unfolding split
split-part String.[] rest h = rw (nil-append, cons-append, nil-append) (ground arith)
split-part (String.◌∷◌ c s) rest h = elim (Bool-cases (code c == field_sep)) [
  | inl e ↦ absurd (ground (arith, h, e))
  | inr e ↦ rw (cons-append, e, split-part s rest (ground (arith, h, e)))
]

abbrev pub AllLack : List String → Type 0
AllLack = All (λ (w : String). lacks field_sep w ≡ true)

pub split-join :
    (w : String) (ws : List String)
    → AllLack (w ∷ ws)
    → split field_sep (join separator (w ∷ ws)) ≡ w ∷ ws
unfolding join
split-join w [] h = split-lacking field_sep w h.0
split-join w (v ∷ ws) h =
    split-part w (join separator (v ∷ ws)) h.0
    ∙ ap (λ (us : List String). w ∷ us) (split-join v ws h.1)
