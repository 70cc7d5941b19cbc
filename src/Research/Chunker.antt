-- ===== src/Research/Chunker.antt =====
-- `DeterministicSectionChunker` (app/research/chunker.py). The patterns of tokens, of headings and
-- of paragraph breaks are compiled by `re`: what they find in a text is a parameter.
use marketview.Base.Texts.{Text, codes}
use marketview.Base.Result.{Result, err, ok, raise_if, ◌>>=◌, ◌>>◌}
use marketview.Research.Python.{Python, join, strip}
use marketview.Research.Deadline.{Fault, value_error}
use marketview.Base.{
  ◌≡◌, refl, [], ◌∷◌, zero, suc, true, false, none, some, inl, inr, ◌&&◌, ◌+◌, ◌++◌, ◌-◌, Bool,
  List, Option, drop, eqb, first, keep, leb, length, ltb, map, min, not, take, ℕ, if◌then◌else◌,
}
pub mod Sections
pub mod Windows
pub mod Limits

-- The constructor's fields.
pub record Chunker : Type 0 where
  pub max_tokens : ℕ
  pub overlap_tokens : ℕ
  pub max_chunks : ℕ

-- `DeterministicSectionChunker.__init__`
unfoldable pub make_chunker : Chunker → Result Fault Chunker
make_chunker c = do
  raise_if (not (leb 1 c.max_tokens && leb c.max_tokens 4000)) value_error
  raise_if (leb c.max_tokens c.overlap_tokens) value_error
  raise_if (not (leb 1 c.max_chunks && leb c.max_chunks 10000)) value_error
  ok c

-- A match of the token pattern, from `start()` to `end()`.
pub record Match : Type 0 where
  pub start : ℕ
  pub finish : ℕ

-- `re.split(r"\n\s*\n", text)`, `_HEADING.match` and `_TOKEN.finditer`
pub record Patterns : Type 0 where
  pub split_blank_lines : Text → List Text
  pub is_heading : Text → Bool
  pub find_tokens : Text → List Match

-- Why a call does not return: it raises, it indexes out of range, or the fuel runs out.
pub data ChunkFault : Type 0 where
  raises : Fault → ChunkFault
  index_error out_of_fuel : ChunkFault

-- `xs[i]`
abbrev pub get_elem {ℓ} : {A : Type ℓ} → List A → ℕ → Result ChunkFault A
get_elem [] i = err index_error
get_elem (x ∷ xs) zero = ok x
get_elem (x ∷ xs) (suc i) = get_elem xs i

-- `text[start:end]`
abbrev pub slice : Text → ℕ → ℕ → Text
slice s start stop = take (stop - start) (drop start s)

abbrev pub prepend {ℓ} : {A : Type ℓ} → A → Result ChunkFault (List A) → Result ChunkFault (List A)
prepend x (ok xs) = ok (x ∷ xs)
prepend x (err e) = err e

-- The loop of `_section_chunks` over the positions of the tokens, from `start`: each window is a
-- pair of its first token and the token after its last.
unfoldable pub windows : Chunker → ℕ → ℕ → ℕ → Result ChunkFault (List (ℕ × ℕ))
windows c zero n start = err out_of_fuel
windows c (suc fuel) n start =
    let stop = min (start + c.max_tokens) n in
    let rest = windows c fuel n (stop - c.overlap_tokens) in
    if ltb start n
    then if eqb stop n then ok ((start, stop) ∷ []) else prepend (start, stop) rest
    else ok []

module _ (py : Python) (re : Patterns) where
  -- `section[matches[start].start():matches[end - 1].end()].strip()`
  unfoldable pub window_text : Text → List Match → ℕ × ℕ → Result ChunkFault Text
  window_text section matches (start, stop) = do
    head ← get_elem matches start
    last ← get_elem matches (stop - 1)
    ok (strip py (slice section head.start last.finish))

  abbrev pub window_texts : Text → List Match → List (ℕ × ℕ) → Result ChunkFault (List Text)
  window_texts section matches [] = ok []
  window_texts section matches (w ∷ ws) = do
    t ← window_text section matches w
    ts ← window_texts section matches ws
    ok (t ∷ ts)

  -- `_section_chunks`, with fuel for as many windows as there are tokens.
  unfoldable pub section_chunks : Chunker → Text → Result ChunkFault (List Text)
  section_chunks c section = do
    ws ← windows c (suc (length (re.find_tokens section))) (length (re.find_tokens section)) 0
    window_texts section (re.find_tokens section) ws

  -- The paragraphs that `_sections` groups.
  abbrev pub paragraphs : Text → List Text
  paragraphs value =
      keep (λ s. not (eqb (length s) 0)) (map (strip py) (re.split_blank_lines value))

  -- The loop of `_sections`, which starts a section at each heading but the first.
  unfoldable pub group : List Text → List Text → List (List Text)
  group current [] = if eqb (length current) 0 then [] else current ∷ []
  group current (p ∷ ps) =
      if re.is_heading p && not (eqb (length current) 0)
      then current ∷ group (p ∷ []) ps
      else group (current ++ p ∷ []) ps

  unfoldable pub sections : Text → List Text
  sections value = map (join (codes "\n\n")) (group [] (paragraphs value))

  -- The loop of `chunk` over the sections, which checks the count after each. Nothing where
  -- `_section_chunks` returns nothing.
  unfoldable pub gather : Chunker → List Text → List Text → Result ChunkFault (List Text)
  gather c chunks [] = ok chunks
  gather c chunks (s ∷ ss) = do
    new ← section_chunks c s
    if ltb c.max_chunks (length (chunks ++ new))
        then err (raises value_error)
        else gather c (chunks ++ new) ss

  -- `tuple(chunk for chunk in chunks if chunk)`, refused when it is empty
  unfoldable pub usable : List Text → Result ChunkFault (List Text)
  usable chunks =
      let result = keep (λ s. not (eqb (length s) 0)) chunks in
      if eqb (length result) 0 then err (raises value_error) else ok result

  unfoldable pub chunk : Chunker → Text → Result ChunkFault (List Text)
  chunk c text = gather c [] (sections text) >>= usable
