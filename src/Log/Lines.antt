-- ===== src/Log/Lines.antt =====
-- What of the text that is printed to the log of src/Log.cpp gets to `syslog`.
use worker_log.Base.{
  ℕ, ◌≡◌, refl, sym, ap, ◌∙◌, [], ◌∷◌, ◌++◌, Bytes, c_string, Lacks, append_assoc, append-nil,
}
use worker_log.Log.{Log, sync, overflow, print}

print-buffer :
    (this : Log) (text : Bytes) → print this text ≡ record this { buffer = this.buffer ++ text }
unfolding print overflow
print-buffer this [] = ap (λ b. record this { buffer = b }) (sym (append-nil this.buffer))
print-buffer this (c ∷ text) =
    print-buffer (record this { buffer = this.buffer ++ c ∷ [] }) text
    ∙ ap (λ b. record this { buffer = b }) (append_assoc this.buffer (c ∷ []) text)

pub c_string-Lacks : (s : Bytes) → Lacks 0 s → c_string s ≡ s
unfolding c_string
c_string-Lacks [] h = refl
c_string-Lacks (c ∷ s) h = rw h.0 (ap (◌∷◌ c) (c_string-Lacks s h.1))

-- Two texts without a zero byte, the first of them not empty, that are printed one after the other on an empty buffer are one line when it is flushed, with
-- the priority of the time of the flush, and a second flush writes nothing.
sync-print :
    (this : Log) (first : ℕ) (text more : Bytes)
    → this.buffer ≡ []
    → Lacks 0 (first ∷ text ++ more)
    → sync (sync (print (print this (first ∷ text)) more))
      ≡ record this { written = this.written ++ (this.priority, first ∷ text ++ more) ∷ [] }
unfolding sync
sync-print this first text more e h =
    let printed : print (print this (first ∷ text)) more
        ≡ record this { buffer = first ∷ text ++ more } =
      ap (λ l. print l more) (print-buffer this (first ∷ text))
      ∙ print-buffer (record this { buffer = this.buffer ++ first ∷ text }) more
      ∙ rw e refl in
    ap (λ l. sync (sync l)) printed
    ∙ ap (λ line. record this { buffer = []; written = this.written ++ (this.priority, line) ∷ [] })
        (c_string-Lacks (first ∷ text ++ more) h)
    ∙ ap
        (λ b. record this {
          buffer = b;
          written = this.written ++ (this.priority, first ∷ text ++ more) ∷ [];
        })
        (sym e)
