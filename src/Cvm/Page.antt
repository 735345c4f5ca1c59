-- ===== src/Cvm/Page.antt =====
-- internal/cvm/store.go: the page, what is computed of one page, and the helpers on lists of names.
--
-- A page's content is its bytes. SHA-256 and gzip are the fields of `Codec`; what the proofs need
-- of them is `IsLawful`. Reference and access counts never fall below 0, so they are natural
-- numbers; that they stay below 2^63 is not modelled.
use os_complete.Base.{
  ℕ, suc, ◌-◌, ◌/◌, ◌≡◌, String, List, [], ◌∷◌, ◌++◌, Option, none, some, Bool, true, false, ◌&&◌,
  length, leb, ◌==◌, if◌then◌else◌, ite, dec_str, zero,
}

abbrev pub Bytes : Type 0
Bytes = List ℕ

-- `hashContent`, `gzipBytes` and the reader of `materializedContent`; `none` is an error.
pub record Codec : Type 0 where
  pub hash : Bytes → String
  pub gzip : Bytes → Option Bytes
  pub gunzip : Bytes → Option Bytes

-- gzip is lossless, and SHA-256 meets no collision.
pub record IsLawful (c : Codec) : Type 0 where
  pub gunzip-gzip :
      (content zipped : Bytes) → c.gzip content ≡ some zipped → c.gunzip zipped ≡ some content
  pub hash_injective : (a b : Bytes) → c.hash a ≡ c.hash b → a ≡ b

pub record Page : Type 0 where
  pub id : String
  pub page_id : String
  pub kind : String
  pub content : Bytes
  pub hash : String
  pub bytes : ℕ
  pub size_bytes : ℕ
  pub token_count : ℕ
  pub ref_count : ℕ
  pub pinned : Bool
  pub compressed : Bool
  pub compressed_size_bytes : ℕ
  pub last_access_time : ℕ
  pub access_count : ℕ
  pub owner_agents : List String
  pub created_at : ℕ
  pub updated_at : ℕ
  pub compressed_data : Bytes

-- `Page{}`.
abbrev pub no_page : Page
no_page = record {
  id = "";
  page_id = "";
  kind = "";
  content = [];
  hash = "";
  bytes = 0;
  size_bytes = 0;
  token_count = 0;
  ref_count = 0;
  pinned = false;
  compressed = false;
  compressed_size_bytes = 0;
  last_access_time = 0;
  access_count = 0;
  owner_agents = [];
  created_at = 0;
  updated_at = 0;
  compressed_data = [];
}

pub data Error : Type 0 where
  kind_required : Error
  unknown_page : String → Error
  missing_page : String → Error
  gzip_failed : Error
  gunzip_failed : Error

pub data Result {ℓ} (A : Type ℓ) : Type ℓ where
  ok : A → Result A
  err : Error → Result A

between : ℕ → ℕ → ℕ → Bool
between lo hi b = leb lo b && leb b hi

-- How many bytes `range` over a string takes for its first rune: 1 for a byte that begins no
-- encoded character.
rune_width : Bytes → ℕ
unfolding between
rune_width (a ∷ b ∷ c ∷ d ∷ rest) =
    if between 0xf0 0xf4 a
      && between (if a == 0xf0 then 0x90 else 0x80) (if a == 0xf4 then 0x8f else 0xbf) b
      && between 0x80 0xbf c
      && between 0x80 0xbf d
    then 4
    else if between 0xe0 0xef a
        && between (if a == 0xe0 then 0xa0 else 0x80) (if a == 0xed then 0x9f else 0xbf) b
        && between 0x80 0xbf c
    then 3
    else if between 0xc2 0xdf a && between 0x80 0xbf b
    then 2
    else 1
rune_width (a ∷ b ∷ c ∷ []) =
    if between 0xe0 0xef a
      && between (if a == 0xe0 then 0xa0 else 0x80) (if a == 0xed then 0x9f else 0xbf) b
      && between 0x80 0xbf c
    then 3
    else if between 0xc2 0xdf a && between 0x80 0xbf b
    then 2
    else 1
rune_width (a ∷ b ∷ []) = if between 0xc2 0xdf a && between 0x80 0xbf b then 2 else 1
rune_width rest = 1

-- The runes of the bytes behind the first `skip`.
runes_from : ℕ → Bytes → ℕ
unfolding rune_width
runes_from skip [] = 0
runes_from zero (a ∷ rest) = suc (runes_from (rune_width (a ∷ rest) - 1) rest)
runes_from (suc skip) (a ∷ rest) = runes_from skip rest

-- `len([]rune(content))`.
unfoldable pub rune_count : Bytes → ℕ
unfolding runes_from
rune_count content = runes_from 0 content

unfoldable pub estimate_tokens : Bytes → ℕ
unfolding rune_count
estimate_tokens [] = 0
estimate_tokens (a ∷ rest) =
    let tokens = rune_count (a ∷ rest) / 4 in if tokens == 0 then 1 else tokens

unfoldable pub materialized_content : Codec → Page → Result Bytes
materialized_content codec page =
    if page.compressed
    then if length page.compressed_data == page.bytes
      then ok page.compressed_data
      else elim (codec.gunzip page.compressed_data) [
        | none ↦ err gunzip_failed
        | some plain ↦ ok plain
      ]
    else ok page.content

unfoldable pub resident_bytes : Page → ℕ
resident_bytes page = if page.compressed then page.compressed_size_bytes else page.bytes

unfoldable pub contains : String → List String → Bool
contains value [] = false
contains value (existing ∷ rest) = ite (dec_str existing value) true (contains value rest)

unfoldable pub append_unique_string : List String → String → List String
unfolding contains
append_unique_string values value =
    ite (dec_str value "") values (if contains value values then values else values ++ value ∷ [])

unfoldable pub remove_string : List String → String → List String
remove_string [] value = []
remove_string (existing ∷ rest) value =
    ite (dec_str existing value) (remove_string rest value) (existing ∷ remove_string rest value)
