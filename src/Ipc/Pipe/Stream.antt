-- ===== src/Ipc/Pipe/Stream.antt =====
-- A pipe over a whole run of reads and writes.
use minic_os.Base.{ℕ, ◌≡◌, sym, ◌∙◌, List, [], ◌∷◌, ◌++◌, tabulate}
use mathlib.Core.List.{append_assoc, append-nil}
use minic_os.Ipc.Pipe.{PipeBuffer, pipe_write, pipe_read}
use minic_os.Ipc.Pipe.Fifo.{IsValid, contents, pipe_write_refines, pipe_read_refines}

-- The calls of the writers and the readers of one pipe, in the order in which they run.
pub data Call : Type 0 where
  writes : (ℕ → ℕ) → ℕ → Call
  reads : ℕ → Call

-- The bytes taken from the writers, those handed to the readers, and the pipe at the end.
unfoldable pub run : PipeBuffer → List Call → List ℕ × List ℕ × PipeBuffer
run p [] = ([], [], p)
run p (writes bytes len ∷ calls) =
    let (n, p') = pipe_write p bytes len in
    let (sent, got, q) = run p' calls in (tabulate n bytes ++ sent, got, q)
run p (reads max_len ∷ calls) =
    let (n, out, p') = pipe_read p max_len in
    let (sent, got, q) = run p' calls in (sent, out ++ got, q)

join_write : (a b c d m : List ℕ) → m ≡ a ++ b → m ++ c ≡ d → a ++ (b ++ c) ≡ d
join_write a b c d m e h = sym (append_assoc a b c) ∙ rw (← e) h

join_read : (m o r s g k : List ℕ) → m ≡ o ++ r → r ++ s ≡ g ++ k → m ++ s ≡ (o ++ g) ++ k
join_read m o r s g k e h = rw (e, append_assoc o r s, h) (sym (append_assoc o g k))

-- Whatever the order of the calls, what was in the pipe followed by what the writers got rid of is
-- what the readers got followed by what is still in the pipe: no byte is lost, doubled or
-- overtaken; and the pipe stays valid.
pub run_fifo :
    (calls : List Call) (p : PipeBuffer)
    → IsValid p
    → let (sent, got, q) = run p calls in (contents p ++ sent ≡ got ++ contents q) × IsValid q
unfolding run
run_fifo [] p v = (append-nil (contents p), v)
run_fifo (writes bytes len ∷ calls) p v =
    let (_, v', e) = pipe_write_refines p bytes len v in
    let (ih, w) = run_fifo calls (pipe_write p bytes len).1 v' in (join_write _ _ _ _ _ e ih, w)
run_fifo (reads max_len ∷ calls) p v =
    let (_, _, v', e) = pipe_read_refines p max_len v in
    let (ih, w) = run_fifo calls (pipe_read p max_len).2 v' in (join_read _ _ _ _ _ _ e ih, w)
