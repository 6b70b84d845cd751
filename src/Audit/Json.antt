-- ===== src/Audit/Json.antt =====
-- chain.ts: payloads as JSON, the canonical text of a record, and the removal of secrets. A number is
-- the text that it prints; a payload read from the database holds no `undefined` and no `Date`.
use erp_global.Common.{
  ℕ, ◌+◌, ◌-◌, ◌/◌, ◌%◌, Bool, true, false, ◌&&◌, ◌||◌, not, [], ◌∷◌, ◌++◌, ◌==◌, length, ltb, leb,
  if◌then◌else◌,
}
use erp_global.Common.Text.{Text, codes, ◌===◌, contains, lower}

mutual
  pub data Json : Type 0 where
    null : Json
    bool : Bool → Json
    num : Text → Json
    str : Text → Json
    arr : Items → Json
    obj : Fields → Json

  pub data Items : Type 0 where
    nil : Items
    cons : Json → Items → Items

  pub data Fields : Type 0 where
    end : Fields
    field : Text → Json → Fields → Fields

-- `a < b` on strings: by code units.
unfoldable pub text_lt : Text → Text → Bool
text_lt a [] = false
text_lt [] (d ∷ b) = true
text_lt (c ∷ a) (d ∷ b) = let rest = text_lt a b in if c == d then rest else ltb c d

all_digits : Text → Bool
all_digits [] = true
all_digits (c ∷ s) = leb b'0' c && leb c b'9' && all_digits s

-- An array index in canonical form, below 2^32 - 1: an object lists these keys first, by value.
unfoldable pub is_index : Text → Bool
unfolding all_digits
is_index [] = false
is_index (c ∷ s) =
    all_digits (c ∷ s)
    && (not (c == b'0') || s === [])
    && (ltb (length s) 9 || (length s == 9 && text_lt (c ∷ s) (codes "4294967295")))

-- The order in which an object lists keys that were set in sorted order. Of two indices without
-- leading zeros the shorter is the less.
unfoldable pub key_before : Text → Text → Bool
key_before a b =
    if is_index a
    then if is_index b
      then if length a == length b then text_lt a b else ltb (length a) (length b)
      else true
    else if is_index b
    then false
    else text_lt a b

-- One step of the sort by key, in the order in which the result is read; no key stands twice.
unfoldable pub insert_field : Text → Json → Fields → Fields
insert_field k v end = field k v end
insert_field k v (field j w fs) =
    let rest = insert_field k v fs in
    if key_before j k then field j w rest else field k v (field j w fs)

unfoldable mutual
  -- Keys sorted at every level.
  pub normalize : Json → Json
  normalize null = null
  normalize (bool b) = bool b
  normalize (num n) = num n
  normalize (str s) = str s
  normalize (arr xs) = arr (normalize_items xs)
  normalize (obj fs) = obj (normalize_fields fs)

  pub normalize_items : Items → Items
  normalize_items nil = nil
  normalize_items (cons x xs) = cons (normalize x) (normalize_items xs)

  pub normalize_fields : Fields → Fields
  normalize_fields end = end
  normalize_fields (field k v fs) = insert_field k (normalize v) (normalize_fields fs)

-- A lower-case hexadecimal digit.
hex_digit : ℕ → ℕ
hex_digit n = if ltb n 10 then b'0' + n else b'a' + (n - 10)

unicode_escape : ℕ → Text
unicode_escape c =
    codes "\\u"
    ++ (hex_digit (c / 4096 % 16)
        ∷ hex_digit (c / 256 % 16)
        ∷ hex_digit (c / 16 % 16)
        ∷ hex_digit (c % 16)
        ∷ [])

is_high : ℕ → Bool
is_high c = leb 0xd800 c && ltb c 0xdc00

is_low : ℕ → Bool
is_low c = leb 0xdc00 c && ltb c 0xe000

-- One code unit of a JSON string that is no surrogate.
escape_code : ℕ → Text
escape_code c =
    if c == 34
    then codes "\\\""
    else if c == 92
    then codes "\\\\"
    else if c == 8
    then codes "\\b"
    else if c == 9
    then codes "\\t"
    else if c == 10
    then codes "\\n"
    else if c == 12
    then codes "\\f"
    else if c == 13
    then codes "\\r"
    else if ltb c 32
    then unicode_escape c
    else c ∷ []

starts_low : Text → Bool
starts_low [] = false
starts_low (c ∷ s) = is_low c

-- `JSON.stringify` of a string, without the quotes: a lone surrogate is escaped. `paired` says that
-- the code unit before was a high surrogate.
escape_from : Bool → Text → Text
escape_from paired [] = []
escape_from paired (c ∷ s) =
    (if is_high c
      then (if starts_low s then c ∷ [] else unicode_escape c)
      else if is_low c
      then (if paired then c ∷ [] else unicode_escape c)
      else escape_code c)
    ++ escape_from (is_high c) s

unfoldable pub quote : Text → Text
unfolding escape_from escape_code unicode_escape hex_digit is_high is_low starts_low
quote s = (34 ∷ escape_from false s) ++ (34 ∷ [])

unfoldable mutual
  -- `JSON.stringify`
  pub stringify : Json → Text
  stringify null = codes "null"
  stringify (bool true) = codes "true"
  stringify (bool false) = codes "false"
  stringify (num n) = n
  stringify (str s) = quote s
  stringify (arr xs) = b'[' ∷ stringify_items xs
  stringify (obj fs) = b'{' ∷ stringify_fields fs

  -- The elements and the closing bracket.
  pub stringify_items : Items → Text
  stringify_items nil = codes "]"
  stringify_items (cons x xs) = stringify x ++ stringify_tail xs

  pub stringify_tail : Items → Text
  stringify_tail nil = codes "]"
  stringify_tail (cons x xs) = b',' ∷ (stringify x ++ stringify_tail xs)

  pub stringify_fields : Fields → Text
  stringify_fields end = codes "}"
  stringify_fields (field k v fs) = quote k ++ (b':' ∷ (stringify v ++ stringify_more fs))

  pub stringify_more : Fields → Text
  stringify_more end = codes "}"
  stringify_more (field k v fs) = b',' ∷ (quote k ++ (b':' ∷ (stringify v ++ stringify_more fs)))

unfoldable pub canonical_json : Json → Text
canonical_json j = stringify (normalize j)

-- /password|secret|token|^otp$|^code$/i
unfoldable pub is_secret_key : Text → Bool
is_secret_key k =
    contains (lower k) (codes "password")
    || contains (lower k) (codes "secret")
    || contains (lower k) (codes "token")
    || lower k === codes "otp"
    || lower k === codes "code"

unfoldable mutual
  -- The values of secret keys replaced, at every level.
  pub redact : Json → Json
  redact null = null
  redact (bool b) = bool b
  redact (num n) = num n
  redact (str s) = str s
  redact (arr xs) = arr (redact_items xs)
  redact (obj fs) = obj (redact_fields fs)

  pub redact_items : Items → Items
  redact_items nil = nil
  redact_items (cons x xs) = cons (redact x) (redact_items xs)

  pub redact_fields : Fields → Fields
  redact_fields end = end
  redact_fields (field k v fs) =
      let rest = redact_fields fs in
      let kept = redact v in
      if is_secret_key k then field k (str (codes "[redacted]")) rest else field k kept rest
