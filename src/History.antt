-- ===== src/History.antt =====
-- The pages of a thread's history: `latest_thread_history_summary` and `slice_thread_history_page`
-- of crates/wxcd-worker/src/main.rs, and the numbers in the headers of `render_imported_history`
-- and `render_history_page` of crates/wxcd-render/src/lib.rs. The turns are of any type; usize has
-- 64 bits.
pub mod Pages
use codex_webex_connector.Base.{
  ℕ, ◌+◌, ◌-◌, ◌*◌, ◌^◌, min, Bool, List, [], ltb, leb, eqb, length, take, drop, if◌then◌else◌,
}

pub record ImportedThreadHistory (T : Type 0) : Type 0 where
  pub turns : List T
  pub total_turns : ℕ

abbrev pub usize_max : ℕ
usize_max = 2 ^ 64 - 1

abbrev pub saturating_mul : ℕ → ℕ → ℕ
saturating_mul a b = min (a * b) usize_max

abbrev pub saturating_add : ℕ → ℕ → ℕ
saturating_add a b = min (a + b) usize_max

module _ {T : Type 0} where
  -- `turns[start..end].to_vec()`
  abbrev pub between : ℕ → ℕ → List T → List T
  between start end turns = take (end - start) (drop start turns)

  unfoldable pub latest_thread_history_summary : List T → ℕ → ImportedThreadHistory T
  latest_thread_history_summary turns limit = record {
    turns = if ltb limit (length turns) then drop (length turns - limit) turns else turns;
    total_turns = length turns;
  }

  unfoldable pub slice_thread_history_page : List T → ℕ → ℕ → ImportedThreadHistory T
  slice_thread_history_page turns page page_size =
      let newer_turns = saturating_mul (page - 1) page_size in
      if eqb (length turns) 0
      then record { turns = []; total_turns = 0 }
      else if leb (length turns) newer_turns
      then record { turns = []; total_turns = length turns }
      else let end = length turns - newer_turns in
        record { turns = between (end - page_size) end turns; total_turns = length turns }

-- the first and the last number of "Showing turns {start_index}-{end_index}"
unfoldable pub page_start_index : ℕ → ℕ → ℕ → ℕ → ℕ
page_start_index page page_size total_turns shown_turns =
    saturating_add (total_turns - saturating_mul (page - 1) page_size - shown_turns) 1

unfoldable pub page_end_index : ℕ → ℕ → ℕ → ℕ
page_end_index page page_size total_turns = total_turns - saturating_mul (page - 1) page_size

-- the number of the first turn in `render_imported_history`
unfoldable pub imported_start_index : ℕ → ℕ → ℕ
imported_start_index total_turns shown_turns = saturating_add (total_turns - shown_turns) 1
