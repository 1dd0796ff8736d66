-- ===== src/Mm/Heap/Free.antt =====
-- `kfree` of a block that is in use.
use mathlib.Core.Option.{some-injective}
use minic_os.Base.{
  ℕ, zero, suc, ◌+◌, ◌-◌, ◌<◌, ◌≤◌, ◌≡◌, refl, sym, ap, ◌∙◌, true, false, ◌||◌, List, [], ◌∷◌, some,
  ◌==◌, leb, ltb, get_elem?, Bool-cases, inl, inr, arith,
}
use minic_os.Base.Exec.{done}
use minic_os.Mm.Heap.{
  Block, Heap, heap_base, header_size, absorb, join_previous, free_behind, free_block, kfree,
}
use minic_os.Mm.Heap.Live.{extent, live, IsAligned, IsValid}
use minic_os.Mm.Heap.Absorb.{
  without, Used, Used-ge, absorb_lem, join_previous_lem, without-cons, without-here,
}

-- The blocks of a heap from `offset` on, without the one at `t`.
record Freed (t offset : ℕ) (old new : List Block) : Type 0 where
  lives : live offset new ≡ without t (live offset old)
  same_extent : extent new ≡ extent old
  aligned : IsAligned new

free_behind_lem :
    (t offset : ℕ) (p : Block) (bs : List Block)
    → IsAligned (p ∷ bs)
    → Used t (offset + header_size + p.size) bs
    → (new : List Block) × (free_behind t offset p bs ≡ done new) × Freed t offset (p ∷ bs) new
unfolding free_behind
free_behind_lem t offset p [] v u = absurd u
free_behind_lem t offset p (b ∷ bs) (hp, (hb, v)) u =
    elim (Bool-cases (offset + header_size + p.size == t)) [
      | inl here ↦
          let at : offset + header_size + p.size ≡ t = ground arith in
          let (l, e, a, (m, rest, shape)) =
            absorb_lem (offset + header_size + p.size) b.size bs hb v in
          let (l', e', a') = join_previous_lem offset m p rest (absorb b.size bs) shape (hp, a) in
          let used : b.free ≡ false = elim u [
            | inl (same, used) ↦ used
            | inr later ↦ absurd (omega (arith, Used-ge t _ bs later))
          ] in
          (
            join_previous p (absorb b.size bs),
            rw here refl,
            record {
              lives =
                  l'
                  ∙ without-cons t offset p (absorb b.size bs) (b ∷ bs) (omega arith) (
                      l
                      ∙ sym (without-here (offset + header_size + p.size) b bs used)
                      ∙ ap (λ k. without k (live (offset + header_size + p.size) (b ∷ bs))) at);
              same_extent = e' ∙ omega (arith, e);
              aligned = a';
            },
          )
      | inr further ↦
          let later : Used t (offset + header_size + p.size + header_size + b.size) bs = elim u [
            | inl (same, used) ↦ absurd (ground arith)
            | inr later ↦ later
          ] in
          let (new, run, f) =
            free_behind_lem t (offset + header_size + p.size) b bs (hb, v) later in
          (
            p ∷ new,
            rw (further, run) refl,
            record {
              lives =
                  without-cons t offset p new (b ∷ bs) (omega (arith, Used-ge t _ bs later))
                    f.lives;
              same_extent = omega (arith, f.same_extent);
              aligned = (hp, f.aligned);
            },
          )
    ]

free_block_lem :
    (t : ℕ) (bs : List Block)
    → IsAligned bs
    → Used t 0 bs
    → (new : List Block) × (free_block t bs ≡ done new) × Freed t 0 bs new
unfolding free_block
free_block_lem t [] v u = absurd u
free_block_lem t (b ∷ bs) (h, v) u = elim (Bool-cases (t == 0)) [
  | inl first ↦
      let at : 0 ≡ t = ground arith in
      let used : b.free ≡ false = elim u [
        | inl (same, used) ↦ used
        | inr later ↦ absurd (omega (arith, Used-ge t _ bs later))
      ] in
      let (l, e, a, shape) = absorb_lem 0 b.size bs h v in
      (
        absorb b.size bs,
        rw first refl,
        record {
          lives = l ∙ sym (without-here 0 b bs used) ∙ ap (λ k. without k (live 0 (b ∷ bs))) at;
          same_extent = e;
          aligned = a;
        },
      )
  | inr further ↦
      let later : Used t (0 + header_size + b.size) bs = elim u [
        | inl (same, used) ↦ absurd (ground arith)
        | inr later ↦ later
      ] in
      let (new, run, f) = free_behind_lem t 0 b bs (h, v) later in (new, rw (further, run) refl, f)
]

live-free :
    (offset : ℕ) (b : Block) (bs : List Block)
    → b.free ≡ true
    → live offset (b ∷ bs) ≡ live (offset + header_size + b.size) bs
live-free offset b bs free = ground arith

live-used :
    (offset : ℕ) (b : Block) (bs : List Block)
    → b.free ≡ false
    → live offset (b ∷ bs) ≡ (offset, b.size) ∷ live (offset + header_size + b.size) bs
live-used offset b bs used = ground arith

-- An allocated block is in use, and lies in the heap.
member-Used :
    (offset i t s : ℕ) (bs : List Block)
    → get_elem? (live offset bs) i ≡ some (t, s)
    → Used t offset bs × (t + header_size + s ≤ offset + extent bs)
member-Used offset i t s [] at = absurd (cc)
member-Used offset i t s (b ∷ bs) at = elim (Bool-cases b.free) [
  | inl free ↦
      let (u, le) =
        member-Used (offset + header_size + b.size) i t s bs
          (ap (λ xs. get_elem? xs i) (sym (live-free offset b bs free)) ∙ at) in
      (inr u, omega arith)
  | inr used ↦
      first_or_later i used (ap (λ xs. get_elem? xs i) (sym (live-used offset b bs used)) ∙ at)
        (λ j. member-Used (offset + header_size + b.size) j t s bs)
]
  where
    first_or_later :
        (i : ℕ)
        → b.free ≡ false
        → get_elem? ((offset, b.size) ∷ live (offset + header_size + b.size) bs) i ≡ some (t, s)
        → ((j : ℕ)
            → get_elem? (live (offset + header_size + b.size) bs) j ≡ some (t, s)
            → Used t (offset + header_size + b.size) bs
              × (t + header_size + s ≤ offset + header_size + b.size + extent bs))
        → Used t offset (b ∷ bs) × (t + header_size + s ≤ offset + extent (b ∷ bs))
    first_or_later zero used at rest =
        let e : (offset, b.size) ≡ (t, s) = some-injective _ _ at in
        (
          inl (ap (λ (x : ℕ × ℕ). x.0) e, used),
          omega (arith, ap (λ (x : ℕ × ℕ). x.0) e, ap (λ (x : ℕ × ℕ). x.1) e),
        )
    first_or_later (suc i) used at rest = let (u, le) = rest i at in (inr u, omega arith)

-- From a valid heap kfree of the pointer of an allocated block that is not empty takes the block out
-- of those in use, and leaves the others and a valid heap.
pub kfree_lem :
    (h : Heap) (i offset size : ℕ)
    → IsValid h
    → get_elem? (live 0 h.blocks) i ≡ some (offset, size)
    → 0 < size
    → (h' : Heap) × (kfree (heap_base + offset + header_size) h ≡ done h')
      × IsValid h'
      × (live 0 h'.blocks ≡ without offset (live 0 h.blocks))
unfolding kfree
kfree_lem h i offset size v at some_byte =
    let (u, le) = member-Used 0 i offset size h.blocks at in
    let (new, run, f) = free_block_lem offset h.blocks v.aligned u in
    let not_null : (heap_base + offset + header_size == 0) ≡ false = ground arith in
    let in_range : (ltb (heap_base + offset + header_size) (heap_base + header_size)
          || leb (heap_base + h.heap_size) (heap_base + offset + header_size))
        ≡ false =
      ground (arith, v.tiled) in
    let back : heap_base + offset + header_size - heap_base - header_size ≡ offset = omega arith in
    (
      record h { blocks = new },
      rw (not_null, in_range, back, run) refl,
      record {
        tiled = f.same_extent ∙ v.tiled;
        aligned = f.aligned;
        whole = v.whole;
        cap = v.cap;
        within = v.within;
      },
      f.lives,
    )
