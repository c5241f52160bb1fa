-- ===== src/Agent.antt =====
-- SetUserAgent of models/peer.go: what a client says of itself, read as a name, a version and an
-- operating system. Texts are lists of code points here.
pub mod Names
pub mod Fields
use nodewatch_api.Base.{
  ℕ, zero, suc, ◌+◌, Bool, true, false, ◌&&◌, ◌||◌, Option, none, some, List, [], ◌∷◌, ◌++◌, map,
  leb, ◌==◌, if◌then◌else◌,
}
use nodewatch_api.Base.Text.{Text, codes, text_eq, contains, split, first_part}

-- ClientName. A name that is still empty is `none` of an option.
pub data ClientName : Type 0 where
  prysm lighthouse teku cortex lodestar nimbus trinity grandine others : ClientName

pub data Os : Type 0 where
  linux mac windows unknown : Os

pub record UserAgent : Type 0 where
  pub name : ClientName
  pub version : Text
  pub os : Os

-- The lower-case letter of a code point as strings.EqualFold pairs them, where one of the two is an
-- ASCII letter: U+017F is a form of `s` and U+212A one of `k`.
unfoldable pub fold : ℕ → ℕ
fold c =
    if leb b'A' c && leb c b'Z'
    then c + 32
    else if c == 0x17f
    then b's'
    else if c == 0x212a
    then b'k'
    else c

-- strings.EqualFold, where one of the two texts is ASCII.
unfoldable pub equal_fold : Text → Text → Bool
unfolding fold
equal_fold a b = text_eq (map fold a) (map fold b)

-- unicode.ToLower as far as its results are ASCII: U+0130 becomes `i` and U+212A becomes `k`. Any
-- other code point stays outside ASCII.
to_lower : ℕ → ℕ
to_lower c =
    if leb b'A' c && leb c b'Z'
    then c + 32
    else if c == 0x130
    then b'i'
    else if c == 0x212a
    then b'k'
    else c

abbrev pub ClientTable : Type 0
ClientTable = List (ClientName × List Text)

-- The map `clients`, in one order; the loop runs over it in any.
abbrev pub clients : ClientTable
clients =
    (prysm, codes "prysm" ∷ [])
    ∷ (lighthouse, codes "lighthouse" ∷ [])
    ∷ (teku, codes "teku" ∷ [])
    ∷ (cortex, codes "cortex" ∷ [])
    ∷ (lodestar, codes "lodestar" ∷ codes "js-libp2p" ∷ [])
    ∷ (nimbus, codes "nimbus" ∷ [])
    ∷ (trinity, codes "trinity" ∷ [])
    ∷ (grandine, codes "grandine" ∷ codes "rust-libp2p" ∷ [])
    ∷ []

-- The inner loop: one of the identity names is the given one.
pub has_identity : Text → List Text → Bool
has_identity part [] = false
has_identity part (i ∷ is) = equal_fold i part || has_identity part is

-- The loop nameChecker over the table in the given order.
pub find_client : ClientTable → Text → Option ClientName
unfolding has_identity
find_client [] part = none
find_client ((name, identities) ∷ table) part =
    if has_identity part identities then some name else find_client table part

-- `if userAgent.Name == ""`
abbrev pub or_others : Option ClientName → ClientName
or_others none = others
or_others (some n) = n

-- The part of the given number, or the empty text.
part_at : ℕ → List Text → Text
part_at i [] = []
part_at zero (p ∷ ps) = p
part_at (suc i) (p ∷ ps) = part_at i ps

-- The switch over the name: which part holds the version.
version_part : ClientName → List Text → Text
unfolding part_at
version_part teku parts = part_at 2 parts
version_part _ parts = part_at 1 parts

-- And which part holds the operating system.
os_part : ClientName → List Text → Text
unfolding part_at
os_part teku parts = part_at 3 parts
os_part prysm parts = []
os_part _ parts = part_at 2 parts

-- `if userAgent.Version == ""`
or_unknown : Text → Text
or_unknown [] = codes "unknown"
or_unknown (c ∷ cs) = c ∷ cs

-- The version up to the first `-` or `+`, and "unknown" for an empty one.
pub standard_version : Text → Text
standard_version version = or_unknown (first_part (split b'+' (first_part (split b'-' version))))

-- The loop over validOS, in which the last match counts.
pub os_of : Text → Os
unfolding to_lower
os_of os =
    let lower = map to_lower os in
    if contains (codes "windows") lower
    then windows
    else if contains (codes "mac") lower
    then mac
    else if contains (codes "linux") lower
    then linux
    else unknown

-- SetUserAgent, with the client table in the order in which the loop meets it.
pub user_agent : ClientTable → Text → UserAgent
user_agent table ag =
    let parts = split b'/' ag in
    let name = or_others (find_client table (first_part parts)) in
    record {
      name = name;
      version = standard_version (version_part name parts);
      os = os_of (os_part name parts);
    }
