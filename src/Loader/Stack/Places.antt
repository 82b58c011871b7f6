-- ===== src/Loader/Stack/Places.antt =====
-- Where the strings of the initial stack and its block stand (src/loader/loader.c).
use fake_kernel.Prelude.{
  ℕ, suc, ◌+◌, ◌-◌, ◌%◌, ◌^◌, ◌≤◌, ◌<◌, ◌≡◌, refl, sym, ap, ◌∙◌, arith, true, leb, u32, add32,
  sub32, List, [], ◌∷◌, ◌++◌,
}
use mathlib.Core.Path.{subst}
use fake_kernel.Prelude.Widths.{bit_and-split}
use fake_kernel.Prelude.Bits.{bit_and_low}
use fake_kernel.Mem.{Memory, length, copy_bytes, check_bounds}
use fake_kernel.Mem.Blocks.{
  HoldsBytes, HoldsBytes-append, AreWords, copy_bytes-size, length-append, copy_bytes-append,
  write_words,
}
use fake_kernel.Machine.{Machine, apply, write32, write_host}
use fake_kernel.Prog.{Host, Prog, Run, ret, ok, run, run->>=, run-if_true, and_then, assign, ◌>>=◌}
use fake_kernel.Loader.Stack.{
  Strings, copy_in, write_strings, put32, count, string_bytes, string_base, stack_base,
  header_bytes,
}

-- The strings one after the other, each with its terminator.
abbrev pub terminated : List (List ℕ) → List ℕ
terminated [] = []
terminated (a ∷ args) = (a ++ 0 ∷ []) ++ terminated args

-- Where each of them starts, from an address on.
abbrev pub starts : List (List ℕ) → ℕ → List ℕ
starts [] p = []
starts (a ∷ args) p = p ∷ starts args (p + (length a + 1))

-- Each pointer of a list points to the string of the other list and its terminator.
abbrev pub PointTo : List ℕ → List (List ℕ) → Memory → Type 0
PointTo [] [] m = Unit
PointTo (p ∷ ps) (a ∷ args) m = HoldsBytes p (a ++ 0 ∷ []) m × PointTo ps args m
PointTo _ _ m = ⊥

pub copy_in-run :
    (host : Host) (d : ℕ) (bs : List ℕ) (s : Machine)
    → d + length bs ≤ s.mem.size
    → run host (copy_in d bs) s ≡ ok tt (record s { mem = copy_bytes d bs s.mem })
unfolding run copy_in apply check_bounds
copy_in-run host d bs s inside =
    let fits : leb (d + length bs) s.mem.size ≡ true = ground arith in
    run-if_true host (assign (write_host d bs)) (ret tt) s (leb (d + length bs) s.mem.size) fits

-- The strings go one behind the other, and the pointers to them are returned.
pub write_strings-run :
    (host : Host) (args : List (List ℕ)) (p : ℕ) (s : Machine)
    → p + length (terminated args) ≤ s.mem.size
    → p + length (terminated args) < 2 ^ 32
    → run host (write_strings args p) s
      ≡ ok
          (record { addrs = starts args p; next = p + length (terminated args) })
          (record s { mem = copy_bytes p (terminated args) s.mem })
unfolding write_strings run copy_bytes
write_strings-run host [] p s inside fits =
    let same : p ≡ p + 0 = omega arith in
    ap (λ (e : ℕ). ok (record { addrs = []; next = e }) s) same
write_strings-run host (a ∷ args) p s inside fits =
    let here = a ++ 0 ∷ [] in
    let rest = terminated args in
    let one : length here ≡ length a + 1 = length-append a (0 ∷ []) in
    let both : length (here ++ rest) ≡ length here + length rest = length-append here rest in
    let next : add32 p (length a + 1) ≡ p + (length a + 1) = omega (arith, one, both) in
    let s1 = record s { mem = copy_bytes p here s.mem } in
    let size = copy_bytes-size p here s.mem in
    let more =
      write_strings-run host args (p + (length a + 1)) s1 (omega (arith, one, both, size))
        (omega (arith, one, both)) in
    let finish : Strings → Prog Strings =
      λ r. ret (record { addrs = p ∷ r.addrs; next = r.next }) in
    let go : ℕ → Prog Strings = λ q. write_strings args q >>= finish in
    let same : p + (length a + 1) ≡ p + length here = omega (arith, one) in
    run->>= host (copy_in p here) (λ _. go (add32 p (length a + 1))) s
    ∙ ap (λ (r : Run (Unit {0})). and_then r (λ _. run host (go (add32 p (length a + 1)))))
        (copy_in-run host p here s (omega (arith, both)))
    ∙ ap (λ (q : ℕ). run host (go q) s1) next
    ∙ run->>= host (write_strings args (p + (length a + 1))) finish s1
    ∙ ap (λ (r : Run Strings). and_then r (λ u. run host (finish u))) more
    ∙ ap
        (λ (e : ℕ).
          ok (record { addrs = p ∷ starts args (p + (length a + 1)); next = e })
            (record s { mem = copy_bytes (p + (length a + 1)) rest s1.mem }))
        (omega (arith, one, both))
    ∙ ap
        (λ (m : Memory).
          ok
            (record {
              addrs = p ∷ starts args (p + (length a + 1));
              next = p + length (here ++ rest);
            })
            (record s { mem = m }))
        (ap (λ (e : ℕ). copy_bytes e rest s1.mem) same ∙ sym (copy_bytes-append p here rest s.mem))

pub put32-run :
    (host : Host) (ws : List ℕ) (p : ℕ) (s : Machine)
    → run host (put32 p ws) s ≡ ok tt (record s { mem = write_words p ws s.mem })
unfolding put32 run apply
put32-run host [] p s = refl
put32-run host (w ∷ ws) p s = put32-run host ws (add32 p 4) (apply (write32 p w) s)

-- How much memory the stack takes: the sums do not wrap, and all parts are inside.
abbrev pub FitsStack : List (List ℕ) → ℕ → Type 0
FitsStack args size =
    (size ≤ 2 ^ 32) × (length (terminated args) + header_bytes (count args) + 64 ≤ size)

pub string_bytes-terminated :
    (args : List (List ℕ)) (k : ℕ)
    → k + length (terminated args) < 2 ^ 32
    → string_bytes args k ≡ k + length (terminated args)
unfolding string_bytes
string_bytes-terminated [] k fits = omega arith
string_bytes-terminated (a ∷ args) k fits =
    let here = a ++ 0 ∷ [] in
    let one : length here ≡ length a + 1 = length-append a (0 ∷ []) in
    let both = length-append here (terminated args) in
    let next : add32 k (length a + 1) ≡ k + (length a + 1) = omega (arith, one, both) in
    rw next (
      string_bytes-terminated args (k + (length a + 1)) (omega (arith, one, both))
      ∙ omega (arith, one, both))

pub length-starts : (args : List (List ℕ)) (p : ℕ) → length (starts args p) ≡ count args
length-starts [] p = refl
length-starts (a ∷ args) p = ap suc (length-starts args (p + (length a + 1)))

-- The places of the strings, of the random bytes behind them, and of the block below them.
module _ (size : ℕ) (args : List (List ℕ)) (fits : FitsStack args size) where
  pub string_base_lem :
      (string_base size args % 16 ≡ 0)
      × (string_base size args + length (terminated args) + 20 ≤ size)
      × (header_bytes (count args) + 16 ≤ string_base size args)
  unfolding string_base
  string_base_lem =
      let total = string_bytes-terminated args 16 (omega (arith, fits)) in
      let y = sub32 (sub32 (u32 size) 4) (string_bytes args 16) in
      let value : y ≡ size - 4 - (16 + length (terminated args)) = omega (arith, fits, total) in
      let split = bit_and-split 32 y 0xf (omega arith) (omega arith) in
      omega (arith, fits, value, split, bit_and_low 4 y)

  pub stack_base_lem :
      (stack_base (string_base size args) (count args) % 16 ≡ 0)
      × (stack_base (string_base size args) (count args) + header_bytes (count args)
          ≤ string_base size args)
  unfolding stack_base
  stack_base_lem =
      let z = sub32 (string_base size args) (header_bytes (count args)) in
      let split = bit_and-split 32 z 0xf (omega arith) (omega arith) in
      omega (arith, fits, string_base_lem, split, bit_and_low 4 z)

pub starts-AreWords :
    (args : List (List ℕ)) (p : ℕ) (rest : List ℕ)
    → p + length (terminated args) < 2 ^ 32
    → AreWords rest
    → AreWords (starts args p ++ rest)
starts-AreWords [] p rest fits h = h
starts-AreWords (a ∷ args) p rest fits h =
    let one = length-append a (0 ∷ []) in
    let both = length-append (a ++ 0 ∷ []) (terminated args) in
    (
      omega (arith, fits),
      starts-AreWords args (p + (length a + 1)) rest (omega (arith, one, both)) h,
    )

-- The strings that were copied are where the pointers point.
pub starts-PointTo :
    (args : List (List ℕ)) (p : ℕ) (m : Memory)
    → HoldsBytes p (terminated args) m
    → PointTo (starts args p) args m
starts-PointTo [] p m h = tt
starts-PointTo (a ∷ args) p m h =
    let here = a ++ 0 ∷ [] in
    let one : length here ≡ length a + 1 = length-append a (0 ∷ []) in
    let parts = HoldsBytes-append p here (terminated args) m h in
    (
      parts.0,
      starts-PointTo args (p + (length a + 1)) m
          (subst (λ e. HoldsBytes (p + e) (terminated args) m) one parts.1),
    )
