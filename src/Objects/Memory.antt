-- ===== src/Objects/Memory.antt =====
-- internal/objstore/memory.go: `memoryStore`. SHA-256 and the hexadecimal text are one parameter.
use Prim.Native.String.{String}
use text.Mathlib.Text.{◌==◌ as str_eq}
use gh_stories.Prelude.{
  ℕ, ◌-◌, Bool, true, Option, none, some, List, [], ◌∷◌, ◌==◌, if◌then◌else◌, length, take, drop,
  delete_rows, exists_row, find_row,
}
use gh_stories.Objects.Ranges.{Range, parse_byte_range}

pub record MemObject : Type 0 where
  pub key : String
  pub content : List ℕ
  pub content_type : String
  pub etag : List ℕ

pub data Error : Type 0 where
  no_key wrong_size missing : Error

pub data Outcome {ℓ} (A : Type ℓ) : Type ℓ where
  ok : A → Outcome A
  err : Error → Outcome A

-- `Put`; `size` is `none` where the code is given a negative one.
abbrev pub is_size : Option ℕ → ℕ → Bool
is_size none n = true
is_size (some size) n = n == size

abbrev pub has_key : String → MemObject → Bool
has_key key o = str_eq o.key key

unfoldable pub put :
    (List ℕ → List ℕ)
    → List MemObject
    → String
    → String
    → List ℕ
    → Option ℕ
    → Outcome (List MemObject)
put sha objects key content_type bytes size =
    if str_eq key ""
    then err no_key
    else if is_size size (length bytes)
    then ok (
        record { key = key; content = bytes; content_type = content_type; etag = sha bytes }
        ∷ delete_rows (has_key key) objects)
    else err wrong_size

-- `Object`: `range` is the part of the whole that the body is, with status 206.
pub record Object : Type 0 where
  pub body : List ℕ
  pub content_type : String
  pub content_length : ℕ
  pub content_range : Option (Range × ℕ)
  pub etag : List ℕ
  pub status : ℕ

abbrev whole : MemObject → Object
whole o = record {
  body = o.content;
  content_type = o.content_type;
  content_length = length o.content;
  content_range = none;
  etag = o.etag;
  status = 200;
}

abbrev pub part : MemObject → Option Range → Object
part o none = whole o
part o (some (a, b)) =
    let bytes = take (b - a) (drop a o.content) in
    record {
      body = bytes;
      content_type = o.content_type;
      content_length = length bytes;
      content_range = some ((a, b), length o.content);
      etag = o.etag;
      status = 206;
    }

abbrev in_range : MemObject → List ℕ → Object
in_range o [] = whole o
in_range o (c ∷ cs) = part o (parse_byte_range (c ∷ cs) (length o.content))

abbrev found {ℓ} : {A : Type ℓ} → (MemObject → A) → Option MemObject → Outcome A
found f none = err missing
found f (some o) = ok (f o)

-- `Get`
unfoldable pub get : List MemObject → String → List ℕ → Outcome Object
get objects key range = found (λ o. in_range o range) (find_row (has_key key) objects)

-- `Head`
unfoldable pub head : List MemObject → String → Outcome Object
head objects key = found (λ o. record (whole o) { body = [] }) (find_row (has_key key) objects)

-- `Delete`
unfoldable pub delete : List MemObject → List String → List MemObject
delete objects keys = delete_rows (λ o. exists_row (λ k. has_key k o) keys) objects
