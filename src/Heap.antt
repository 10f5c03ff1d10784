-- ===== src/Heap.antt =====
-- The bump allocator of src/heap.c. `kernel_end` is the address that the linker gives.
use tabla_rusa_os.Base.{
  ℕ, ◌+◌, ◌-◌, ◌%◌, ◌≤◌, ◌<◌, ◌≡◌, ◌==◌, if◌then◌else◌, List, [], ◌∷◌, arith, u32, subst,
}

-- `heap_base` and `heap_next`
pub record Heap : Type 0 where
  pub base : ℕ
  pub next : ℕ

-- `align_up(value, 16)`: the mask clears the low four bits of a 32-bit sum.
unfoldable pub align_up : ℕ → ℕ
align_up value = let sum = (value + 15) % u32 in sum - sum % 16

unfoldable pub heap_init : ℕ → Heap
unfolding align_up
heap_init kernel_end = record { base = align_up kernel_end; next = align_up kernel_end }

-- The address returned, and 0 for an empty request.
unfoldable pub kmalloc : ℕ → Heap → ℕ × Heap
unfolding align_up
kmalloc size h =
    if size == 0
    then (0, h)
    else (align_up h.next, record h { next = (align_up h.next + size) % u32 })

unfoldable pub heap_bytes_used : Heap → ℕ
heap_bytes_used h = (h.next + u32 - h.base) % u32

-- The blocks that a sequence of requests gets, as pairs of address and size.
unfoldable pub allocate : List ℕ → Heap → List (ℕ × ℕ) × Heap
allocate [] h = ([], h)
allocate (n ∷ ns) h =
    let (p, h') = kmalloc n h in let (rest, h'') = allocate ns h' in ((p, n) ∷ rest, h'')

-- A non-empty request gets an aligned block that begins at or behind the old end and less than 16
-- bytes from it, and the new end is the block's, if the block does not reach the last 16 bytes
-- of the address space.
pub kmalloc-block :
    (size : ℕ) (h : Heap)
    → 0 < size
    → h.next + size + 15 < u32
    → let (p, h') = kmalloc size h in
      (p % 16 ≡ 0) × (h.next ≤ p) × (p < h.next + 16) × (h'.next ≡ p + size) × (h'.base ≡ h.base)
unfolding kmalloc
kmalloc-block size h pos fits = ground arith

-- The room that requests can take, padding included.
abbrev pub demand : List ℕ → ℕ
demand [] = 0
demand (n ∷ ns) = n + 15 + demand ns

-- Every block lies within the bounds, and behind all blocks before it.
abbrev pub Disjoint : ℕ → List (ℕ × ℕ) → ℕ → Type 0
Disjoint lo [] hi = lo ≤ hi
Disjoint lo ((p, n) ∷ bs) hi = (lo ≤ p) × Disjoint (p + n) bs hi

abbrev pub AllPositive : List ℕ → Type 0
AllPositive [] = Unit
AllPositive (n ∷ ns) = (0 < n) × AllPositive ns

-- Non-empty requests that fit the address space get blocks that do not overlap: each begins at or
-- behind the end of the one before it, the first behind the old end, and the last ends at the
-- new end.
pub allocate-Disjoint :
    (ns : List ℕ) (h : Heap)
    → AllPositive ns
    → h.next + demand ns < u32
    → Disjoint h.next (allocate ns h).0 (allocate ns h).1.next
unfolding allocate
allocate-Disjoint [] h pos fits = omega arith
allocate-Disjoint (n ∷ ns) h pos fits =
    let block = kmalloc-block n h in
    let rest = allocate-Disjoint ns (kmalloc n h).1 pos.1 (omega (arith, block pos.0)) in
    let placed = block pos.0 (omega arith) in
    (
      placed.1,
      subst (λ lo. Disjoint lo (allocate ns (kmalloc n h).1).0 (allocate ns (kmalloc n h).1).1.next)
          placed.3 rest,
    )
