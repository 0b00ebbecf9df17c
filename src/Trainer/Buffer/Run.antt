-- ===== src/Trainer/Buffer/Run.antt =====
-- Producers and consumers over one buffer, interleaved at their awaits, with the items that were
-- added and the items that were delivered so far.
use agent_rl.Common.{Bool, ℕ, ◌≡◌, List, [], ◌∷◌, ◌++◌}
use agent_rl.Trainer.Buffer.{
  Item, Buffer, new_buffer, returns, add, add_resume, get_items, get_resume,
}

pub record Run : Type 0 where
  pub buffer : Buffer
  pub added : List Item
  pub delivered : List Item

abbrev pub start : ℕ → ℕ → Run
start max_size group_size = record {
  buffer = new_buffer max_size group_size;
  added = [];
  delivered = [];
}

abbrev pub after_add : Run → Item → Buffer → Run
after_add s item b = record s { buffer = b; added = s.added ++ item ∷ [] }

abbrev pub after_get : Run → List Item → Buffer → Run
after_get s xs b = record s { buffer = b; delivered = s.delivered ++ xs }

-- A resumption that waits again has cleared its signal all the same.
-- (`wake_put`, `wake_take`).
pub data Step (s : Run) (t : Run) : Type 0 where
  put :
      (item : Item) (b : Buffer) → add item s.buffer ≡ returns b → t ≡ after_add s item b → Step s t
  put_late :
      (item : Item) (b : Buffer)
      → add_resume item s.buffer ≡ returns b
      → t ≡ after_add s item b
      → Step s t
  take_now :
      (minimum multiple : ℕ) (xs : List Item) (b : Buffer)
      → get_items minimum multiple s.buffer ≡ returns (xs, b)
      → t ≡ after_get s xs b
      → Step s t
  take_late :
      (minimum multiple : ℕ) (xs : List Item) (b : Buffer)
      → get_resume minimum multiple s.buffer ≡ returns (xs, b)
      → t ≡ after_get s xs b
      → Step s t
  -- a waiting coroutine that resumes, clears its signal, and waits again
  wake_put : t ≡ record s { buffer = record s.buffer { get_signal = Bool.false } } → Step s t
  wake_take : t ≡ record s { buffer = record s.buffer { put_signal = Bool.false } } → Step s t

pub data Reach (max_size group_size : ℕ) : Run → Type 0 where
  here : Reach max_size group_size (start max_size group_size)
  next : {s t : Run} → Reach max_size group_size s → Step s t → Reach max_size group_size t
