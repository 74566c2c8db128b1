-- ===== src/Chunking.antt =====
-- apps/api/app/chunking.py: documents are split into chunks with exact offsets. A text is its code
-- points; `is_space` is `str.isspace` of one of them, and `digest` names a chunk by its document,
-- its index and its text.
pub mod Offsets
pub mod Coverage
pub mod Termination
pub mod Bounds
use open_graph_memory.Prelude.{
  ℕ, zero, suc, ◌+◌, ◌-◌, ◌*◌, ◌/◌, min, max, String, Bool, true, false, not, ◌&&◌, ◌||◌, Option,
  none, some, List, [], ◌∷◌, ◌++◌, ◌==◌, starts_codes, length, take, drop, ltb, leb, eqb,
  if◌then◌else◌,
}
use open_graph_memory.Prelude.Int.{pos}
use open_graph_memory.Prelude.Results.{
  value_error, out_of_fuel, Result, ok, err, ◌>>=◌, ◌>>◌, guard,
}
use open_graph_memory.Json.{Json, boolean, int, Fields, end, field, get}

pub record ParsedSegment : Type 0 where
  pub text : List ℕ
  pub metadata : Fields

pub record TextChunk : Type 0 where
  pub id : String
  pub index : ℕ
  pub text : List ℕ
  pub token_count : ℕ
  pub start_char : ℕ
  pub end_char : ℕ
  pub metadata : Fields
  pub segment_part : ℕ
  pub segment_count : ℕ

-- `RecursiveTextChunker` after its `__init__`
pub record Chunker : Type 0 where
  pub size : ℕ
  pub overlap : ℕ
  pub maximum : ℕ

-- an overlap of a native number is not negative
pub new_chunker : ℕ → ℕ → ℕ → Result Chunker
new_chunker size overlap maximum = do
  guard (not (leb size overlap)) (value_error "chunk size must exceed non-negative overlap")
  ok (record { size = size; overlap = overlap; maximum = maximum })

-- a piece of a segment, its offsets, and the metadata that it takes over
pub record Draft : Type 0 where
  pub value : List ℕ
  pub left : ℕ
  pub right : ℕ
  pub metadata : Fields

-- `text[left:right]`
abbrev pub slice : List ℕ → ℕ → ℕ → List ℕ
slice text left right = take (right - left) (drop left text)

-- `{**fs, k: v}`
abbrev set_key : Fields → String → Json → Fields
set_key end k v = field k v end
set_key (field j w fs) k v =
    let rest = set_key fs k v in if j == k then field k v fs else field j w rest

-- `isinstance(v, int)`, which a bool passes too
abbrev pub is_int : Option Json → Bool
is_int (some (int n)) = true
is_int (some (boolean b)) = true
is_int _ = false

module _ (is_space : ℕ → Bool) where
  -- `text[i].isspace()`
  abbrev pub space_at : List ℕ → ℕ → Bool
  space_at [] i = false
  space_at (c ∷ cs) zero = is_space c
  space_at (c ∷ cs) (suc i) = space_at cs i

  -- The two loops that strip the ends; `n` is the number of characters between `left` and `right`.
  abbrev pub trim_left : List ℕ → ℕ → ℕ → ℕ
  trim_left text zero left = left
  trim_left text (suc n) left =
      let rest = trim_left text n (left + 1) in if space_at text left then rest else left

  abbrev pub trim_right : List ℕ → ℕ → ℕ → ℕ
  trim_right text zero right = right
  trim_right text (suc n) right =
      let rest = trim_right text n (right - 1) in if space_at text (right - 1) then rest else right

  -- The stripped piece between two offsets, if anything is left of it.
  unfoldable pub piece : List ℕ → Fields → ℕ → ℕ → List Draft
  piece text metadata start stop =
      let left = trim_left text (stop - start) start in
      let right = trim_right text (stop - left) stop in
      if ltb left right
      then record { value = slice text left right; left = left; right = right; metadata = metadata }
        ∷ []
      else []

-- `text.rfind(separator, start, stop) + 1`: the places from `start` on, `n` of them, are tried from
-- the last one down, and none is found at 0.
unfoldable pub rfind_from : List ℕ → List ℕ → ℕ → ℕ → ℕ
rfind_from separator text start zero = 0
rfind_from separator text start (suc n) =
    let rest = rfind_from separator text start n in
    if starts_codes separator (drop (start + n) text) then suc (start + n) else rest

unfoldable pub rfind : List ℕ → List ℕ → ℕ → ℕ → ℕ
unfolding rfind_from
rfind separator text start stop =
    rfind_from separator text start (stop + 1 - (start + length separator))

-- `max(...) + 1` over the four separators: a blank line, a line break, a full stop and a space
unfoldable pub boundary : List ℕ → ℕ → ℕ → ℕ
boundary text start stop = max (rfind (10 ∷ 10 ∷ []) text start stop) (
    max (rfind (10 ∷ []) text start stop)
      (max (rfind (46 ∷ 32 ∷ []) text start stop) (rfind (32 ∷ []) text start stop)))

-- Where the piece that starts at `start` ends.
unfoldable pub next_end : Chunker → List ℕ → ℕ → ℕ
next_end c text start =
    let stop = min (start + c.size) (length text) in
    let cut = boundary text start stop in
    if ltb stop (length text) && ltb (start + c.size / 2 + 1) cut then cut else stop

-- A draft with its place among the drafts of its segment.
pub record Placed : Type 0 where
  pub draft : Draft
  pub part : ℕ
  pub count : ℕ

unfoldable pub place : ℕ → ℕ → List Draft → List Placed
place part count [] = []
place part count (d ∷ ds) =
    record { draft = d; part = part; count = count } ∷ place (suc part) count ds

module _ (is_space : ℕ → Bool) (c : Chunker) where
  -- The `while start < len(text)` loop; `n` counts the drafts so far, of this and of earlier
  -- segments. Each round starts later in the text, so its length is fuel enough.
  unfoldable pub segment_loop : ℕ → ParsedSegment → ℕ → ℕ → Result (List Draft)
  segment_loop zero s n start = if ltb start (length s.text) then err out_of_fuel else ok []
  segment_loop (suc fuel) s n start =
      let stop = next_end c s.text start in
      let own = piece is_space s.text s.metadata start stop in
      let rest = segment_loop fuel s (n + length own) (max (start + 1) (stop - c.overlap)) in
      if ltb start (length s.text)
      then (if leb c.maximum n
          then err (value_error "document exceeds maximum chunk count")
          else (if eqb stop (length s.text) then ok own else rest >>= λ ds. ok (own ++ ds)))
      else ok []

  abbrev with_offsets : Draft → ℕ → ℕ → Fields
  with_offsets d part count =
      set_key
        (set_key
          (set_key
            (set_key
              (set_key (set_key d.metadata "segment_start_char" (int (pos d.left)))
                "segment_end_char" (int (pos d.right)))
              "start_char" (int (pos d.left)))
            "end_char" (int (pos d.right)))
          "segment_part" (int (pos part)))
        "segment_count" (int (pos count))

  -- the whole of a page that is no longer than a chunk
  abbrev pub is_short_page : ParsedSegment → Bool
  is_short_page s = is_int (get s.metadata "page_number") && leb (length s.text) c.size

  -- The drafts of one segment after `n` others.
  unfoldable pub segment_drafts : ℕ → ParsedSegment → Result (List Draft)
  unfolding segment_loop
  segment_drafts n s =
      if is_short_page s
      then guard (not (leb c.maximum n)) (value_error "document exceeds maximum chunk count")
        >> ok (piece is_space s.text s.metadata 0 (length s.text))
      else segment_loop (length s.text) s n 0

  unfoldable pub placed_drafts : ℕ → List ParsedSegment → Result (List Placed)
  unfolding place
  placed_drafts n [] = ok []
  placed_drafts n (s ∷ ss) = do
    ds ← segment_drafts n s
    rest ← placed_drafts (n + length ds) ss
    ok (place 1 (length ds) ds ++ rest)

  -- `len(value.split())`: the words begun, `in_word` telling whether one is open.
  words : Bool → List ℕ → ℕ
  words in_word [] = 0
  words in_word (x ∷ xs) =
      let rest = words true xs in
      if is_space x then words false xs else (if in_word then rest else suc rest)

  chunk : (String → ℕ → List ℕ → String) → String → ℕ → Placed → TextChunk
  unfolding words
  chunk digest document_id index p = record {
    id = digest document_id index p.draft.value;
    index = index;
    text = p.draft.value;
    token_count = words false p.draft.value;
    start_char = p.draft.left;
    end_char = p.draft.right;
    metadata = with_offsets p.draft p.part p.count;
    segment_part = p.part;
    segment_count = p.count;
  }

  pub chunk_all : (String → ℕ → List ℕ → String) → String → ℕ → List Placed → List TextChunk
  unfolding chunk
  chunk_all digest document_id index [] = []
  chunk_all digest document_id index (p ∷ ps) =
      chunk digest document_id index p ∷ chunk_all digest document_id (suc index) ps

  unfoldable pub split_segments :
      (String → ℕ → List ℕ → String) → String → List ParsedSegment → Result (List TextChunk)
  unfolding placed_drafts chunk_all
  split_segments digest document_id segments =
      placed_drafts 0 segments >>= λ ps. ok (chunk_all digest document_id 0 ps)

  -- `document.segments or (ParsedSegment(document.text),)`
  pub split_document :
      (String → ℕ → List ℕ → String)
      → String
      → List ℕ
      → List ParsedSegment
      → Result (List TextChunk)
  split_document digest document_id text [] =
      split_segments digest document_id (record { text = text; metadata = end } ∷ [])
  split_document digest document_id text (s ∷ ss) = split_segments digest document_id (s ∷ ss)
