-- ===== src/EventLog/Paging/Rounds.antt =====
-- The loop of `EventLog::replay`, round by round: it reads a front part of the room that is enough.
use mathlib.Core.List.{append_assoc}
use codex_webex_connector.Base.{
  ℕ, zero, suc, ◌+◌, ◌*◌, ◌-◌, ◌≤◌, ◌<◌, min, String, true, false, not, Option, some, List, [], ◌∷◌,
  ◌++◌, ◌≡◌, ◌⊎◌, refl, sym, ◌∙◌, ap, arith, eqb, any, length, take, drop, length-take, length-drop,
  take-append-drop, subst, dec_lt, if◌then◌else◌, inl, inr, Bool-cases,
}
use codex_webex_connector.EventLog.Frames.{Message, message_has_snapshot}
use codex_webex_connector.EventLog.Paging.{
  Serves, ReadsEnough, ReadResult, read, page_limit, replay_page_exceeds_limit,
  replay_needs_older_page, last_id, read_pages,
}

last_id_lem :
    (m : Message) (ms : List Message)
    → (front : List Message) × (l : Message) × (m ∷ ms ≡ front ++ l ∷ [])
      × (last_id (m ∷ ms) ≡ some l.id)
last_id_lem m [] = ([], m, refl, refl)
last_id_lem m (n ∷ ms) = let (front, l, e, i) = last_id_lem n ms in (m ∷ front, l, ap (◌∷◌ m) e, i)

take-empty : (n : ℕ) (xs : List Message) → 0 < n → take n xs ≡ [] → xs ≡ []
take-empty zero xs pos e = absurd (omega arith)
take-empty (suc n) [] pos e = refl
take-empty (suc n) (x ∷ xs) pos e = cc

room_for : (p d max k : ℕ) {n : ℕ} → n ≤ p * d → d ≡ max - k → 0 < n → k < max
room_for p zero max k h e pos = absurd (omega arith)
room_for p (suc d) max k h e pos = omega arith

one_less : (max k : ℕ) → k < max → max - k ≡ (max - (k + 1)) + 1
one_less max k h = omega arith

drop-short : (n : ℕ) (xs : List Message) → length (take n xs) < n → drop n xs ≡ []
drop-short zero xs h = absurd (omega arith)
drop-short (suc n) [] h = refl
drop-short (suc n) (x ∷ xs) h = drop-short n xs (omega arith)

module _ (page_size max_pages : ℕ) (fetch : Option String → Option (List Message))
    (log : List Message) (serves : Serves page_size max_pages fetch log) where
  -- the request behind a page that is not empty asks for what follows it
  next_page :
      (messages : List Message) (m : Message) (ms older : List Message)
      → log ≡ messages ++ (m ∷ ms) ++ older
      → fetch (last_id (m ∷ ms)) ≡ some (take page_size older)
  next_page messages m ms older e =
      let (front, l, f, i) = last_id_lem m ms in
      rw i (
        serves.page_before (messages ++ front) l older
          (e ∙ ap (λ p. messages ++ p ++ older) f ∙ simp append_assoc))

  stop_here :
      (seen unseen : List Message)
      → log ≡ seen ++ unseen
      → (unseen ≡ []) ⊎ (any message_has_snapshot seen ≡ true)
      → ReadsEnough log (read seen)
  stop_here seen unseen e h = record {
    seen = seen;
    unseen = unseen;
    result = refl;
    splits = e;
    enough = h;
  }

  abbrev after_page : ℕ → List Message → ℕ → List Message → ReadResult
  after_page fuel messages k page =
      let rest =
        read_pages page_size max_pages fetch fuel (messages ++ page) (last_id page) (k + 1) in
      if eqb (length page) 0
      then read messages
      else if replay_page_exceeds_limit (length page) k max_pages
      then page_limit
      else if not (replay_needs_older_page (messages ++ page) (length page) page_size)
      then read (messages ++ page)
      else rest

  -- the branches of a round whose page is not empty
  after_page-stop :
      (fuel : ℕ) (messages : List Message) (k : ℕ) (m : Message) (ms : List Message)
      → k < max_pages
      → (any message_has_snapshot (messages ++ m ∷ ms) ≡ true) ⊎ (length (m ∷ ms) < page_size)
      → after_page fuel messages k (m ∷ ms) ≡ read (messages ++ m ∷ ms)
  unfolding replay_page_exceeds_limit replay_needs_older_page
  after_page-stop fuel messages k m ms room h = ground arith

  after_page-go_on :
      (fuel : ℕ) (messages : List Message) (k : ℕ) (m : Message) (ms : List Message)
      → k < max_pages
      → any message_has_snapshot (messages ++ m ∷ ms) ≡ false
      → length (m ∷ ms) ≡ page_size
      → after_page fuel messages k (m ∷ ms)
        ≡ read_pages page_size max_pages fetch fuel (messages ++ m ∷ ms) (last_id (m ∷ ms)) (k + 1)
  unfolding replay_page_exceeds_limit replay_needs_older_page
  after_page-go_on fuel messages k m ms room h l = ground arith

  -- one round with a page that is not empty, the later rounds given
  page-ReadsEnough :
      (fuel : ℕ) (messages : List Message) (k : ℕ) (m : Message) (ms older : List Message)
      → k < max_pages
      → log ≡ messages ++ (m ∷ ms) ++ older
      → (length (m ∷ ms) < page_size → older ≡ [])
      → length (m ∷ ms) ≤ page_size
      → ReadsEnough log (
          read_pages page_size max_pages fetch fuel (messages ++ m ∷ ms) (last_id (m ∷ ms)) (k + 1))
      → ReadsEnough log (after_page fuel messages k (m ∷ ms))
  page-ReadsEnough fuel messages k m ms older room e short fits later =
      elim (Bool-cases (any message_has_snapshot (messages ++ m ∷ ms))) [
        | inl found ↦
            subst (ReadsEnough log) (sym (after_page-stop fuel messages k m ms room (inl found)))
              (stop_here (messages ++ m ∷ ms) older e (inr found))
        | inr missing ↦ elim (dec_lt (length (m ∷ ms)) page_size) [
          | yes less ↦
              subst (ReadsEnough log) (sym (after_page-stop fuel messages k m ms room (inr less)))
                (stop_here (messages ++ m ∷ ms) older e (inl (short less)))
          | no full ↦
              subst (ReadsEnough log)
                (sym (after_page-go_on fuel messages k m ms room missing (omega arith))) later
        ]
      ]

  after_page-ReadsEnough :
      (fuel : ℕ) (messages : List Message) (k : ℕ) (page rest : List Message)
      → 0 < page_size
      → log ≡ messages ++ rest
      → length rest ≤ page_size * (max_pages - k)
      → page ≡ take page_size rest
      → (k < max_pages
          → length (drop page_size rest) ≤ page_size * (max_pages - (k + 1))
          → log ≡ (messages ++ page) ++ drop page_size rest
          → fetch (last_id page) ≡ some (take page_size (drop page_size rest))
          → ReadsEnough log
              (read_pages page_size max_pages fetch fuel (messages ++ page) (last_id page) (k + 1)))
      → ReadsEnough log (after_page fuel messages k page)
  after_page-ReadsEnough fuel messages k [] rest pos e bound p later =
      stop_here messages [] (e ∙ ap (λ r. messages ++ r) (take-empty page_size rest pos (sym p)))
        (inl refl)
  after_page-ReadsEnough fuel messages k (m ∷ ms) rest pos e bound p later =
      let len : suc (length ms) ≡ min page_size (length rest) =
        ap length p ∙ length-take page_size rest in
      let room : k < max_pages =
        room_for page_size (max_pages - k) max_pages k bound refl (omega arith) in
      let less : length (drop page_size rest) ≤ page_size * (max_pages - (k + 1)) = omega (
        arith,
        length-drop page_size rest,
        ap (λ (t : ℕ). page_size * t) (one_less max_pages k room),
      ) in
      let splits : log ≡ messages ++ (m ∷ ms) ++ drop page_size rest =
        e
        ∙ ap (λ r. messages ++ r) (sym (take-append-drop page_size rest))
        ∙ ap (λ q. messages ++ (q ++ drop page_size rest)) (sym p)
        ∙ sym (append_assoc messages (m ∷ ms) (drop page_size rest)) in
      page-ReadsEnough fuel messages k m ms (drop page_size rest) room splits
        (λ l. drop-short page_size rest (omega (arith, length-take page_size rest))) (omega arith)
        (later room less splits (next_page messages m ms (drop page_size rest) splits))

  pub read_pages-ReadsEnough :
      (fuel : ℕ) (messages rest : List Message) (before : Option String) (k : ℕ)
      → 0 < page_size
      → fetch before ≡ some (take page_size rest)
      → log ≡ messages ++ rest
      → length rest ≤ page_size * (max_pages - k)
      → max_pages - k < fuel
      → ReadsEnough log (read_pages page_size max_pages fetch fuel messages before k)
  unfolding read_pages
  read_pages-ReadsEnough zero messages rest before k pos f e bound enough = absurd (omega arith)
  read_pages-ReadsEnough (suc fuel) messages rest before k pos f e bound enough =
      rw (f, read_pages)
        (after_page-ReadsEnough fuel messages k (take page_size rest) rest pos e bound refl
          λ room less splits next.
            read_pages-ReadsEnough fuel (messages ++ take page_size rest) (drop page_size rest)
              (last_id (take page_size rest)) (k + 1) pos next splits less (omega arith))
