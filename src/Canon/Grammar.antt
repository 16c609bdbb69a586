-- ===== src/Canon/Grammar.antt =====
-- What the documents are that `validate` of `crates/ppg3-core/src/canon.rs` is to accept: a tree, how bytes
-- spell it, and when it is canonical. Nothing here is the validator's, but for the characters of a text.
use ppg.Common.{
  ℕ, ◌+◌, ◌*◌, ◌-◌, ◌^◌, ◌≤◌, ◌<◌, Bool, true, false, ◌&&◌, none, some, [], ◌∷◌, ◌≡◌, ◌++◌, ◌=ℕ◌,
  if◌then◌else◌,
}
use ppg.Canon.Utf8.{Bytes, read, is_digit, bytes_lt}
use ppg.Canon.Text.{string_round}

mutual
  pub data Json : Type 0 where
    null : Json
    boolean : Bool → Json
    number : Bool → ℕ → Json
    text : Bytes → Json
    array : Elements → Json
    object : Members → Json

  pub data Elements : Type 0 where
    no_elements : Elements
    element : Json → Elements → Elements

  pub data Members : Type 0 where
    no_members : Members
    member : Bytes → Json → Members → Members

-- The number that digits stand for, behind others that stand for `n`.
unfoldable pub decimal : ℕ → Bytes → ℕ
decimal n [] = n
decimal n (b ∷ ds) = decimal (10 * n + (b - b'0')) ds

unfoldable pub all_digits : Bytes → Bool
all_digits [] = true
all_digits (b ∷ ds) = is_digit b && all_digits ds

abbrev pub no_bytes : Bytes → Bool
no_bytes [] = true
no_bytes (b ∷ s) = false

-- Digits, no zero in front of others.
unfoldable pub numeral : Bytes → Bool
unfolding all_digits
numeral [] = false
numeral (b ∷ ds) = if b =ℕ b'0' then no_bytes ds else all_digits (b ∷ ds)

abbrev pub sign : Bool → Bytes → Bytes
sign true s = b'-' ∷ s
sign false s = s

-- From where the characters `out` have been read, `s` spells the rest of the text `t`, its closing quote
-- included, before `r`.
pub data Chars : Bytes → Bytes → Bytes → Bytes → Type 0 where
  quote : {out s r : Bytes} → string_round s ≡ read none r → Chars out s out r
  char :
      {out c s s' t r : Bytes}
      → string_round s ≡ read (some c) s'
      → Chars (out ++ c) s' t r
      → Chars out s t r

unfoldable pub SpellsText : Bytes → Bytes → Bytes → Type 0
SpellsText t s r = (s' : Bytes) × ((s ≡ b'"' ∷ s') × Chars [] s' t r)

-- The bytes `s` are a spelling of the tree before `r`. A member's key, a colon and its value follow each
-- other; a comma stands between two elements, and the bracket behind the last.
unfoldable mutual
  unfolding SpellsText

  pub Spells : Json → Bytes → Bytes → Type 0
  Spells null s r = s ≡ b'n' ∷ b'u' ∷ b'l' ∷ b'l' ∷ r
  Spells (boolean true) s r = s ≡ b't' ∷ b'r' ∷ b'u' ∷ b'e' ∷ r
  Spells (boolean false) s r = s ≡ b'f' ∷ b'a' ∷ b'l' ∷ b's' ∷ b'e' ∷ r
  Spells (number minus n) s r =
      (ds : Bytes) × ((s ≡ sign minus (ds ++ r)) × ((numeral ds ≡ true) × (decimal 0 ds ≡ n)))
  Spells (text t) s r = SpellsText t s r
  Spells (array no_elements) s r = s ≡ b'[' ∷ b']' ∷ r
  Spells (array (element v es)) s r =
      (s' : Bytes) × ((s ≡ b'[' ∷ s') × ((q : Bytes) × (Spells v s' q × SpellsRest es q r)))
  Spells (object no_members) s r = s ≡ b'{' ∷ b'}' ∷ r
  Spells (object (member k v ms)) s r =
      (s' : Bytes) × ((s ≡ b'{' ∷ s')
        × ((p : Bytes) × (SpellsText k s' (b':' ∷ p)
              × ((q : Bytes) × (Spells v p q × SpellsMembers ms q r)))))

  pub SpellsRest : Elements → Bytes → Bytes → Type 0
  SpellsRest no_elements s r = s ≡ b']' ∷ r
  SpellsRest (element v es) s r =
      (s' : Bytes) × ((s ≡ b',' ∷ s') × ((q : Bytes) × (Spells v s' q × SpellsRest es q r)))

  pub SpellsMembers : Members → Bytes → Bytes → Type 0
  SpellsMembers no_members s r = s ≡ b'}' ∷ r
  SpellsMembers (member k v ms) s r =
      (s' : Bytes) × ((s ≡ b',' ∷ s')
        × ((p : Bytes) × (SpellsText k s' (b':' ∷ p)
              × ((q : Bytes) × (Spells v p q × SpellsMembers ms q r)))))

-- Each key is above the one before it, in the order of bytes.
unfoldable pub Ascending : Bytes → Members → Type 0
Ascending k no_members = Unit {0}
Ascending k (member k' v ms) = (bytes_lt k k' ≡ true) × Ascending k' ms

-- The least magnitude that no `i64` has behind a minus sign, or no `u64`.
abbrev pub magnitude_bound : Bool → ℕ
magnitude_bound true = 2 ^ 63 + 1
magnitude_bound false = 2 ^ 64

-- At the depth `d`: no deeper than the bound, numbers in their range, keys ascending, and so within.
unfoldable mutual
  unfolding Ascending

  pub Canonical : ℕ → Json → Type 0
  Canonical d null = d ≤ 256
  Canonical d (boolean b) = d ≤ 256
  Canonical d (number minus n) = (d ≤ 256) × (n < magnitude_bound minus)
  Canonical d (text t) = d ≤ 256
  Canonical d (array es) = (d ≤ 256) × CanonicalElements (d + 1) es
  Canonical d (object no_members) = d ≤ 256
  Canonical d (object (member k v ms)) =
      (d ≤ 256) × (Ascending k ms × (Canonical (d + 1) v × CanonicalMembers (d + 1) ms))

  pub CanonicalElements : ℕ → Elements → Type 0
  CanonicalElements d no_elements = Unit {0}
  CanonicalElements d (element v es) = Canonical d v × CanonicalElements d es

  pub CanonicalMembers : ℕ → Members → Type 0
  CanonicalMembers d no_members = Unit {0}
  CanonicalMembers d (member k v ms) = Canonical d v × CanonicalMembers d ms
