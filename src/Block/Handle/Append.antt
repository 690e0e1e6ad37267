-- ===== src/Block/Handle/Append.antt =====
-- Appended blocks: what the file holds of them, and changes before and after.
use libasdf.Prelude.{ℕ, ◌-◌, ◌^◌, ◌<◌, ◌≡◌, refl, ap, ◌∙◌}
use libasdf.Prelude.{true, false, some, arith}
use libasdf.Prelude.{List, [], ◌∷◌, ◌++◌, length, get_elem?, set}
use libasdf.Prelude.{leb, ◌==◌}
use libasdf.Prelude.{length-append}
use libasdf.Prelude.{lt→leb}
use libasdf.Block.{Compressor, BlockInfo}
use libasdf.Block.Handle.{
  File, Handle, size_max, block_append, block_open, propagate, with_allocated, allocated_size_set,
}
use libasdf.Block.Handle.{with_compressor, compression_set}

get_elem?-last :
    (xs : List BlockInfo) (x : BlockInfo) → get_elem? (xs ++ (x ∷ [])) (length xs) ≡ some x
get_elem?-last [] x = refl
get_elem?-last (y ∷ xs) x = get_elem?-last xs x

set-last :
    (xs : List BlockInfo) (x y : BlockInfo) → set (xs ++ (x ∷ [])) (length xs) y ≡ xs ++ (y ∷ [])
set-last [] x y = refl
set-last (z ∷ xs) x y = ap (λ t. z ∷ t) (set-last xs x y)

-- The info of a block at its place in the file, and the handle that views it.
abbrev pub placed : File → BlockInfo → BlockInfo
placed file info = record info { index = length file.blocks }

abbrev pub view : BlockInfo → Handle
view info = record { info = record info { data_owned = false }; detached = false }

abbrev pub extended : File → BlockInfo → File
extended file info = record file { blocks = file.blocks ++ (info ∷ []) }

append_accepted :
    (block : Handle) (file : File)
    → file.read_only ≡ false
    → block.detached ≡ true
    → length file.blocks < 2 ^ 32
    → block_append block file
      ≡ (true, view (placed file block.info), extended file (placed file block.info))
unfolding block_append
append_accepted block file w d few =
    let room : leb (2 ^ 63 - 1) (length file.blocks) ≡ false = lt→leb _ _ (omega (arith, few)) in
    ground (arith, w, d, room)

open_last :
    (file : File) (info : BlockInfo)
    → block_open (length file.blocks) (extended file info) ≡ some (view info)
unfolding block_open
open_last file info =
    let there : leb (length (file.blocks ++ (info ∷ []))) (length file.blocks) ≡ false =
      lt→leb _ _ (omega (arith, length-append file.blocks (info ∷ []))) in
    rw (there, get_elem?-last file.blocks info) refl

append_again :
    (file : File) (info : BlockInfo)
    → file.read_only ≡ false
    → block_append (view info) (extended file info) ≡ (false, view info, extended file info)
unfolding block_append
append_again file info w = ground (arith, w)

-- A detached block that is appended to a writable file with fewer than 2 ^ 32 blocks stands behind
-- the others, with its place as its index. The handle does not own its data any more, and is the
-- same as one that is opened at that index. Appending it again is refused and changes nothing.
pub block_append-block_open :
    (block : Handle) (file : File)
    → file.read_only ≡ false
    → block.detached ≡ true
    → length file.blocks < 2 ^ 32
    → (view' : Handle) × (file' : File) × (block_append block file ≡ (true, view', file'))
      × (file'.blocks ≡ file.blocks ++ (placed file block.info ∷ []))
      × (block_open (length file.blocks) file' ≡ some view')
      × (block_append view' file' ≡ (false, view', file'))
block_append-block_open block file w d few = (
  view (placed file block.info),
  extended file (placed file block.info),
  append_accepted block file w d few,
  refl,
  open_last file (placed file block.info),
  append_again file (placed file block.info) w,
)

propagate-last :
    (change : BlockInfo → BlockInfo) (file : File) (info info' : BlockInfo)
    → length file.blocks < 2 ^ 32
    → info'.index ≡ length file.blocks
    → propagate change (record { info = info'; detached = false }) (extended file info)
      ≡ some (extended file (change info))
unfolding propagate
propagate-last change file info info' few e =
    let small : (length file.blocks == size_max) ≡ false = ground (arith, few) in
    let blocks : List BlockInfo = file.blocks ++ (info ∷ []) in
    let there : get_elem? blocks info'.index ≡ some info =
      ap (get_elem? blocks) e ∙ get_elem?-last file.blocks info in
    let put : set blocks info'.index (change info) ≡ file.blocks ++ (change info ∷ []) =
      ap (λ k. set blocks k (change info)) e ∙ set-last file.blocks info (change info) in
    let open_place : (info'.index == size_max) ≡ false = ap (λ k. k == size_max) e ∙ small in
    rw open_place (rw there (ap (λ b. some (record file { blocks = b })) put))

-- It does not matter whether the allocated size and the compressor of a detached block are set
-- before it is appended, or after: handle and file end up the same. The file is writable
-- and has fewer than 2 ^ 32 blocks.
pub set-block_append :
    (n : ℕ) (comp : Compressor) (block : Handle) (file : File)
    → file.read_only ≡ false
    → block.detached ≡ true
    → length file.blocks < 2 ^ 32
    → (v : Handle) × (f : File) × (v2 : Handle) × (f2 : File) × (v3 : Handle) × (f3 : File)
      × (block_append block file ≡ (true, v, f))
      × (block_append (record block { info = with_allocated n block.info }) file ≡ (true, v2, f2))
      × (allocated_size_set n v f ≡ some (v2, f2))
      × (block_append (record block { info = with_compressor comp block.info }) file
          ≡ (true, v3, f3))
      × (compression_set (some comp) v f ≡ some (true, v3, f3))
unfolding allocated_size_set compression_set
set-block_append n comp block file w d few =
    let info : BlockInfo = placed file block.info in
    (
      view info,
      extended file info,
      view (with_allocated n info),
      extended file (with_allocated n info),
      view (with_compressor comp info),
      extended file (with_compressor comp info),
      append_accepted block file w d few,
      append_accepted (record block { info = with_allocated n block.info }) file w d few,
      rw
          (
            propagate-last (with_allocated n) file info
                (record (with_allocated n info) { data_owned = false }) few refl,
            allocated_size_set,
          )
          refl,
      append_accepted (record block { info = with_compressor comp block.info }) file w d few,
      rw
          (
            propagate-last (with_compressor comp) file info
                (record (with_compressor comp info) { data_owned = false }) few refl,
            compression_set,
          )
          refl,
    )
