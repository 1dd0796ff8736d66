-- ===== src/Tests/Heap.antt =====
-- A heap after the first call of `heap_init`.
use minic_os.Base.{ℕ, suc, ◌+◌, ◌≡◌, refl, true, false, [], ◌∷◌, arith}
use minic_os.Base.Exec.{done}
use minic_os.Mm.Heap.{Heap, Pages, heap_base, round_up, kalloc, kfree, heap_init}
use minic_os.Mm.Heap.Live.{IsValid, live}
use minic_os.Mm.Heap.Outcomes.{Result}
use minic_os.Mm.Heap.Kalloc.{kalloc_lem}
use minic_os.Mm.Heap.RoundTrip.{kfree-kalloc}

-- There is always a frame; the state is how many were used.
abbrev counted : Pages
counted = record { State = ℕ; map_frame = λ vaddr n. (true, suc n) }

abbrev fresh : Heap
fresh = record {
  blocks = record { size = 65520; free = true } ∷ [];
  heap_size = 65536;
  heap_cap = 16777216;
  heap_inited = true;
}

fresh_heap :
    heap_init counted (record { blocks = []; heap_size = 0; heap_cap = 0; heap_inited = false }) 0
    ≡ done (fresh, 16)
unfolding heap_init
fresh_heap = refl

fresh-IsValid : IsValid fresh
fresh-IsValid = record {
  tiled = omega arith;
  aligned = (omega arith, tt);
  whole = omega arith;
  cap = refl;
  within = omega arith;
}

kalloc_lem_example : Result counted fresh 0 (round_up 100) (kalloc counted 2 100 fresh 0)
kalloc_lem_example = kalloc_lem counted 2 100 fresh 0 fresh-IsValid refl (omega arith) (omega arith)

abbrev taken : Heap
taken = record fresh {
  blocks = record { size = 112; free = false } ∷ record { size = 65392; free = true } ∷ [];
}

kfree-kalloc_example :
    (h : Heap) × (kfree (heap_base + 16) taken ≡ done h)
    × IsValid h
    × (live 0 h.blocks ≡ live 0 fresh.blocks)
unfolding kalloc
kfree-kalloc_example =
    kfree-kalloc counted 2 100 (heap_base + 16) fresh taken 0 0 fresh-IsValid refl (omega arith)
      (omega arith) (omega arith) refl
