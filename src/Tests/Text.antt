-- ===== src/Tests/Text.antt =====
-- Strings in a small memory: "ab" at 10, "c" at 20, zeroes elsewhere.
use risc_v_qemu_kernel.Prelude.{
  ℕ, ◌≡◌, ◌⊎◌, ◌<◌, refl, true, List, [], ◌∷◌, ◌==◌, if◌then◌else◌, inl, inr, arith,
}
use risc_v_qemu_kernel.Prelude.Int.{pos}
use risc_v_qemu_kernel.Strings.{memcpy, memset, strcmp, strcpy, strcat}
use risc_v_qemu_kernel.Strings.Memory.{memcpy_lem, memset_lem}
use risc_v_qemu_kernel.Strings.Text.{CString, strcmp_lem, strcpy_lem, strcat_lem}

abbrev two : ℕ → ℕ
two p = if p == 10 then 97 else if p == 11 then 98 else if p == 20 then 99 else 0

abbrev first_text : List ℕ
first_text = 97 ∷ 98 ∷ []

abbrev second_text : List ℕ
second_text = 99 ∷ []

two-CString : CString two 10 (97 ∷ 98 ∷ []) × CString two 20 (99 ∷ [])
two-CString = ((refl, omega arith, (refl, omega arith, refl)), (refl, omega arith, refl))

memcpy_lem_holds : memcpy 4 9 10 two 9 ≡ 97
memcpy_lem_holds = memcpy_lem 4 9 10 two 9 (inl (omega arith))

memset_lem_holds : memset 3 9 7 two 11 ≡ 7
memset_lem_holds = memset_lem 3 9 7 two 11

strcmp_lem_holds :
    let (r, ended) = strcmp 5 10 20 two in
    (ended ≡ true) × (first_text ≡ second_text → r ≡ pos 0) × (r ≡ pos 0 → first_text ≡ second_text)
strcmp_lem_holds =
    strcmp_lem 5 10 20 two (97 ∷ 98 ∷ []) (99 ∷ []) two-CString.0 two-CString.1 (omega arith)

strcpy_lem_holds :
    let (m, ended) = strcpy 5 30 10 two in
    (ended ≡ true) × CString m 30 (97 ∷ 98 ∷ []) × ((q : ℕ) → (q < 30) ⊎ (32 < q) → m q ≡ two q)
strcpy_lem_holds =
    strcpy_lem 5 30 10 two (97 ∷ 98 ∷ []) two-CString.0 (omega arith) (inr (omega arith))

strcat_lem_example :
    let (m, ended) = strcat 5 10 20 two in
    (ended ≡ true)
    × CString m 10 (97 ∷ 98 ∷ 99 ∷ [])
    × ((q : ℕ) → (q < 10) ⊎ (13 < q) → m q ≡ two q)
strcat_lem_example =
    strcat_lem 5 10 20 two (97 ∷ 98 ∷ []) (99 ∷ []) two-CString.0 two-CString.1 (omega arith)
      (omega arith) (inl (omega arith))
