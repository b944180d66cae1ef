-- ===== src/Strings/Text.antt =====
-- The functions of libs/string.c on strings that end.
use risc_v_qemu_kernel.Prelude.{
  ℕ, zero, suc, ◌+◌, ◌≤◌, ◌<◌, ◌≡◌, ◌≢◌, ◌⊎◌, refl, List, [], ◌∷◌, ◌++◌, length, update, arith,
  true, inl, ap,
}
use risc_v_qemu_kernel.Prelude.Int.{pos}
use risc_v_qemu_kernel.Strings.{strlen, strlen_loop, strcmp, strcpy, strcat}

-- From `p` on the memory holds the characters of the list, and then the end of a string.
abbrev pub CString : (ℕ → ℕ) → ℕ → List ℕ → Type 0
CString m p [] = m p ≡ 0
CString m p (c ∷ cs) = (m p ≡ c) × (c ≢ 0) × CString m (p + 1) cs

-- Changes elsewhere do not matter to a string.
pub CString-frame :
    (m m' : ℕ → ℕ) (p : ℕ) (s : List ℕ)
    → ((q : ℕ) → p ≤ q → q ≤ p + length s → m' q ≡ m q)
    → CString m p s
    → CString m' p s
CString-frame m m' p [] same h = ground (arith, same p)
CString-frame m m' p (c ∷ cs) same h = (
  ground (arith, same p),
  h.1,
  CString-frame m m' (p + 1) cs (λ q lo hi. same q (omega arith) (omega arith)) h.2,
)

+_assoc : (a b c : ℕ) → a + b + c ≡ a + (b + c)
+_assoc a b c = omega arith

+_zero : (a : ℕ) → a + 0 ≡ a
+_zero a = omega arith

+_shift : (a b : ℕ) → a + 1 + b ≡ a + suc b
+_shift a b = omega arith

strlen_loop_lem :
    (fuel i src : ℕ) (m : ℕ → ℕ) (s : List ℕ)
    → CString m (src + i) s
    → length s < fuel
    → strlen_loop fuel i src m ≡ (i + length s, true)
unfolding strlen_loop
strlen_loop_lem zero i src m s h f = absurd (omega arith)
strlen_loop_lem (suc fuel) i src m [] h f = ground arith
strlen_loop_lem (suc fuel) i src m (c ∷ cs) h f =
    ground (arith, strlen_loop_lem fuel (i + 1) src m cs (rw (← +_assoc src i 1) h.2) (omega arith))

-- `strlen` ends, with the length of the string.
pub strlen_lem :
    (fuel src : ℕ) (m : ℕ → ℕ) (s : List ℕ)
    → CString m src s
    → length s < fuel
    → strlen fuel src m ≡ (length s, true)
unfolding strlen
strlen_lem fuel src m s h f = ground (arith, strlen_loop_lem fuel 0 src m s (rw (+_zero src) h) f)

-- `strcmp` ends; it returns 0 for equal strings, and for no others.
pub strcmp_lem :
    (fuel p q : ℕ) (m : ℕ → ℕ) (s t : List ℕ)
    → CString m p s
    → CString m q t
    → length s < fuel
    → let (r, ended) = strcmp fuel p q m in
      (ended ≡ true) × (s ≡ t → r ≡ pos 0) × (r ≡ pos 0 → s ≡ t)
unfolding strcmp
strcmp_lem zero p q m s t h k f = absurd (omega arith)
strcmp_lem (suc fuel) p q m [] [] h k f = ground arith
strcmp_lem (suc fuel) p q m [] (d ∷ t) h k f = ground (arith, h, k)
strcmp_lem (suc fuel) p q m (c ∷ s) [] h k f = ground (arith, h, k)
strcmp_lem (suc fuel) p q m (c ∷ s) (d ∷ t) h k f =
    ground (arith, h, k, strcmp_lem fuel (p + 1) (q + 1) m s t h.2 k.2 (omega arith))

strcpy-step :
    (fuel dest src : ℕ) (m : ℕ → ℕ) (c : ℕ)
    → m src ≡ c
    → c ≢ 0
    → strcpy (suc fuel) dest src m ≡ strcpy fuel (dest + 1) (src + 1) (update m dest (m src))
unfolding strcpy
strcpy-step fuel dest src m c e ne = ground arith

-- `strcpy` ends; the string is found at its destination, and no other byte has changed, if the
-- destination does not start inside the string.
pub strcpy_lem :
    (fuel dest src : ℕ) (m : ℕ → ℕ) (s : List ℕ)
    → CString m src s
    → length s < fuel
    → (dest ≤ src) ⊎ (src + length s < dest)
    → let (m', ended) = strcpy fuel dest src m in
      (ended ≡ true)
      × CString m' dest s
      × ((q : ℕ) → (q < dest) ⊎ (dest + length s < q) → m' q ≡ m q)
unfolding strcpy
strcpy_lem zero dest src m s h f a = absurd (omega arith)
strcpy_lem (suc fuel) dest src m [] h f a = rw h (refl, ground arith, λ q out. ground (arith, out))
strcpy_lem (suc fuel) dest src m (c ∷ cs) h f a =
    let rest =
      strcpy_lem fuel (dest + 1) (src + 1) (update m dest (m src)) cs
        (CString-frame m (update m dest (m src)) (src + 1) cs (λ q lo hi. ground (arith, a, lo, hi))
          h.2)
        (omega arith) (omega (arith, a)) in
    (
      ground (arith, h, rest.0),
      (
        ground (arith, h, rest.2 dest (omega arith)),
        h.1,
        CString-frame (strcpy fuel (dest + 1) (src + 1) (update m dest (m src))).0
            (strcpy (suc fuel) dest src m).0 (dest + 1) cs
            (λ q lo hi. ap (λ r. r.0 q) (strcpy-step fuel dest src m c h.0 h.1)) rest.1,
      ),
      λ q out. ground (arith, h, rest.2 q (omega (arith, out)), out),
    )

-- The characters of a string, whatever follows them, and another string behind them.
CString-append :
    (m m' : ℕ → ℕ) (p : ℕ) (s t : List ℕ)
    → ((q : ℕ) → q < p + length s → m' q ≡ m q)
    → CString m p s
    → CString m' (p + length s) t
    → CString m' p (s ++ t)
CString-append m m' p [] t same h k = rw (← +_zero p) k
CString-append m m' p (c ∷ cs) t same h k = (
  ground (arith, h, same p (omega arith)),
  h.1,
  CString-append m m' (p + 1) cs t (λ q lt. same q (omega arith)) h.2
      (rw (+_shift p (length cs)) k),
)

strcat-copies :
    (fuel dest src n : ℕ) (m : ℕ → ℕ)
    → strlen fuel dest m ≡ (n, true)
    → strcat fuel dest src m ≡ strcpy fuel (dest + n) src m
unfolding strcat
strcat-copies fuel dest src n m e = rw e refl

-- `strcat` ends; the destination holds both strings, one behind the other, and no byte outside of them
-- has changed, if the source is not in the part that is written.
pub strcat_lem :
    (fuel dest src : ℕ) (m : ℕ → ℕ) (s t : List ℕ)
    → CString m dest s
    → CString m src t
    → length s < fuel
    → length t < fuel
    → (dest + length s ≤ src) ⊎ (src + length t < dest + length s)
    → let (m', ended) = strcat fuel dest src m in
      (ended ≡ true)
      × CString m' dest (s ++ t)
      × ((q : ℕ) → (q < dest) ⊎ (dest + length s + length t < q) → m' q ≡ m q)
strcat_lem fuel dest src m s t h k f g a =
    let copied = strcpy_lem fuel (dest + length s) src m t k g a in
    rw (strcat-copies fuel dest src (length s) m (strlen_lem fuel dest m s h f)) (
      copied.0,
      CString-append m (strcpy fuel (dest + length s) src m).0 dest s t
          (λ q lt. copied.2 q (inl lt)) h copied.1,
      λ q out. copied.2 q (omega (arith, out)),
    )
