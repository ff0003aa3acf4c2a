-- ===== src/History/Pages.antt =====
-- The pages of a thread's history leave out no turn, and their headers number the turns shown.
use codex_webex_connector.Base.{
  ℕ, zero, suc, ◌+◌, ◌-◌, ◌*◌, ◌≤◌, ◌<◌, min, List, [], ◌∷◌, ◌++◌, ◌≡◌, refl, sym, ap, ◌∙◌, arith,
  ltb, leb, eqb, length, take, drop, length-take, length-drop, take-append-drop, Bool-cases, inl,
  inr,
}
use codex_webex_connector.History.{
  usize_max, saturating_mul, between, latest_thread_history_summary, slice_thread_history_page,
  page_start_index, page_end_index, imported_start_index,
}

the_sum : (a b : ℕ) → suc (b + a) ≡ suc b + a
the_sum a b = omega arith

clear : (start end : ℕ) → end ≡ 0 → end - start ≡ 0
clear start end e = omega arith

start_is :
    (page page_size total : ℕ)
    → total < usize_max
    → (let end = total - (page - 1) * page_size in
        page_start_index page page_size total (end - (end - page_size)) ≡ end - page_size + 1)
unfolding page_start_index
start_is page page_size total b = let k = (page - 1) * page_size in omega arith

end_is :
    (page page_size total : ℕ)
    → total < usize_max
    → page_end_index page page_size total ≡ total - (page - 1) * page_size
unfolding page_end_index
end_is page page_size total b = omega arith

all_of_it :
    (total limit : ℕ) → total < usize_max → total ≤ limit → 0 ≡ imported_start_index total total - 1
unfolding imported_start_index
all_of_it total limit b h = omega arith

imported_start_is :
    (total limit : ℕ)
    → total < usize_max
    → imported_start_index total (min limit total) - 1 ≡ total - limit
unfolding imported_start_index
imported_start_is total limit b = omega arith

module _ {T : Type 0} where
  drop-nil : (n : ℕ) → drop {A = T} n [] ≡ []
  drop-nil zero = refl
  drop-nil (suc n) = refl

  drop-drop : (a b : ℕ) (xs : List T) → drop a (drop b xs) ≡ drop (b + a) xs
  drop-drop a zero xs = ap (λ n. drop n xs) (omega arith)
  drop-drop zero (suc b) [] = sym (drop-nil (suc b + 0))
  drop-drop (suc a) (suc b) [] = sym (drop-nil (suc b + suc a))
  drop-drop a (suc b) (x ∷ xs) = drop-drop a b xs ∙ ap (λ n. drop n (x ∷ xs)) (the_sum a b)

  drop-length : (xs : List T) → drop (length xs) xs ≡ []
  drop-length [] = refl
  drop-length (x ∷ xs) = drop-length xs

  between-drop :
      (start end : ℕ) (xs : List T)
      → start ≤ end
      → between start end xs ++ drop end xs ≡ drop start xs
  between-drop start end xs h =
      let rest : drop (end - start) (drop start xs) ≡ drop end xs =
        drop-drop (end - start) start xs ∙ ap (λ n. drop n xs) (omega arith) in
      ap (λ ys. between start end xs ++ ys) (sym rest)
      ∙ take-append-drop (end - start) (drop start xs)

  between-empty : (start end : ℕ) (xs : List T) → end ≡ 0 → between start end xs ≡ []
  between-empty start end xs e = ap (λ n. take n (drop start xs)) (clear start end e)

  slice_thread_history_page-between :
      (turns : List T) (page page_size : ℕ)
      → length turns ≤ usize_max
      → (slice_thread_history_page turns page page_size).turns
        ≡ between
            (length turns - (page - 1) * page_size - page_size)
            (length turns - (page - 1) * page_size)
            turns
  unfolding slice_thread_history_page
  slice_thread_history_page-between turns page page_size b =
      let k = (page - 1) * page_size in
      let nothing = between-empty (length turns - k - page_size) (length turns - k) turns in
      elim (Bool-cases (eqb (length turns) 0)) [
        | inl e ↦ rw e (sym (nothing (ground arith)))
        | inr e ↦ elim (Bool-cases (leb (length turns) (saturating_mul (page - 1) page_size))) [
          | inl far ↦ rw (e, far) (sym (nothing (ground arith)))
          | inr near ↦ let small : min k usize_max ≡ k = ground arith in rw (e, near, small) refl
        ]
      ]

  -- the pages from page `n` down to page 1, in the order of the turns
  abbrev pub pages : List T → ℕ → ℕ → List T
  pages turns page_size zero = []
  pages turns page_size (suc n) =
      (slice_thread_history_page turns (suc n) page_size).turns ++ pages turns page_size n

  -- Of a history whose length fits usize, the pages 1 to `n` together are the last `n` times
  -- `page_size` turns, in order and each once.
  pub pages-eq-drop :
      (turns : List T) (page_size n : ℕ)
      → length turns ≤ usize_max
      → pages turns page_size n ≡ drop (length turns - n * page_size) turns
  pages-eq-drop turns page_size zero b =
      sym (drop-length turns ∙ refl) ∙ ap (λ n. drop n turns) (omega arith)
  pages-eq-drop turns page_size (suc n) b =
      let k = n * page_size in
      let front = slice_thread_history_page-between turns (suc n) page_size b in
      let page : suc n - 1 ≡ n = omega arith in
      let next : suc n * page_size ≡ k + page_size = omega arith in
      ap (λ ys. ys ++ pages turns page_size n) front
      ∙ rw page (
          ap (λ ys. between (length turns - k - page_size) (length turns - k) turns ++ ys)
            (pages-eq-drop turns page_size n b)
          ∙ between-drop (length turns - k - page_size) (length turns - k) turns (omega arith)
          ∙ ap (λ m. drop m turns) (omega arith))

  -- Of a history shorter than the largest usize, the header of a page names the turns that the
  -- page shows: those from the first number to the last one, counted from 1, as many as are shown.
  pub page_header :
      (turns : List T) (page page_size : ℕ)
      → length turns < usize_max
      → (let shown = (slice_thread_history_page turns page page_size).turns in
          let first = page_start_index page page_size (length turns) (length shown) in
          let last = page_end_index page page_size (length turns) in
          (shown ≡ between (first - 1) last turns) × (first + length shown ≡ last + 1))
  page_header turns page page_size b =
      let k = (page - 1) * page_size in
      let end = length turns - k in
      let at = slice_thread_history_page-between turns page page_size (omega arith) in
      let size : length (between (end - page_size) end turns) ≡ end - (end - page_size) = omega (
        arith,
        length-take (end - (end - page_size)) (drop (end - page_size) turns),
        length-drop (end - page_size) turns,
      ) in
      let one_back : end - page_size + 1 - 1 ≡ end - page_size = omega arith in
      rw
        (
          at,
          size,
          start_is page page_size (length turns) b,
          end_is page page_size (length turns) b,
          one_back,
        )
        (refl, omega arith)

  -- What is imported at first is the end of the history, numbered from its first turn on.
  pub latest_thread_history_summary_lem :
      (turns : List T) (limit : ℕ)
      → length turns < usize_max
      → (let history = latest_thread_history_summary turns limit in
          let first = imported_start_index history.total_turns (length history.turns) in
          (history.turns ≡ drop (first - 1) turns)
          × (length history.turns ≡ min limit (length turns)))
  unfolding latest_thread_history_summary
  latest_thread_history_summary_lem turns limit b = elim (Bool-cases (ltb limit (length turns))) [
    | inl long ↦
        let size : length (drop (length turns - limit) turns) ≡ min limit (length turns) =
          ground (arith, length-drop (length turns - limit) turns) in
        rw (long, size, imported_start_is (length turns) limit b) (refl, refl)
    | inr short ↦
        let size : length turns ≡ min limit (length turns) = ground arith in
        rw short (ap (λ n. drop n turns) (all_of_it (length turns) limit b (ground arith)), size)
  ]
