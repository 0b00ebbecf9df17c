-- ===== src/Eval/Workflow/Slices.antt =====
-- What `_set_messages` makes of the history, as a list of messages whatever the slices.
use agent_rl.Common.{
  ℕ, zero, suc, ◌≤◌, ◌≡◌, refl, sym, ap, ◌∙◌, Bool, true, false, Option, none, some, List, [], ◌∷◌,
  ◌++◌, map, String, length, drop, if◌then◌else◌, append-nil, append_assoc, length-append, arith,
}
use agent_rl.Eval.Types.{Role, ChatMessage, MessageRecord, input, model}
use agent_rl.Eval.Workflow.{Slicing, flushed, slice_message, slice_all, set_messages, unsliced}

-- A message of the environment, or a record of a model.
pub data Item : Type 0 where
  sent : ChatMessage → Item
  said : String → Item

abbrev pub contents : List MessageRecord → List Item
contents [] = []
contents (input ms ∷ rs) = map sent ms ++ contents rs
contents (model s ∷ rs) = said s ∷ contents rs

abbrev pub is_prompt : ChatMessage → Bool
is_prompt m = elim m.role [
  | Role.system ↦ true
  | Role.developer ↦ true
  | Role.assistant ↦ false
  | Role.tool ↦ false
  | Role.user ↦ false
]

-- The messages from the last prompt on, if there is one.
unfoldable pub from_last_prompt : List ChatMessage → Option (List ChatMessage)
from_last_prompt [] = none
from_last_prompt (m ∷ ms) = elim (from_last_prompt ms) [
  | some t ↦ some t
  | none ↦ if is_prompt m then some (m ∷ ms) else none
]

-- A history after messages: they follow it, or it begins anew at the last prompt among them.
unfoldable pub after : List ChatMessage → List Item → List Item
after ms before = elim (from_last_prompt ms) [ none ↦ before ++ map sent ms | some t ↦ map sent t ]

contents-append : (xs ys : List MessageRecord) → contents (xs ++ ys) ≡ contents xs ++ contents ys
contents-append [] ys = refl
contents-append (input ms ∷ xs) ys = rw (contents-append xs ys, append_assoc) refl
contents-append (model s ∷ xs) ys = rw (contents-append xs ys) refl

contents-flushed :
    (h : List MessageRecord) (c : List ChatMessage)
    → contents (flushed h c) ≡ contents h ++ map sent c
contents-flushed h [] = sym (append-nil (contents h))
contents-flushed h (m ∷ ms) =
    contents-append h (input (m ∷ ms) ∷ [])
    ∙ ap (λ t. contents h ++ t) (append-nil (map sent (m ∷ ms)))

abbrev one_more : ChatMessage → List Item → List Item
one_more m before = if is_prompt m then sent m ∷ [] else before ++ sent m ∷ []

after-cons :
    (m : ChatMessage) (ms : List ChatMessage) (before : List Item)
    → after (m ∷ ms) before ≡ after ms (one_more m before)
unfolding after from_last_prompt
after-cons m ms before = grind (arith, append_assoc)

drop-flush :
    {A : Type 0} (n : ℕ) (xs ys : List A) → n ≤ length xs → drop n (xs ++ ys) ≡ drop n xs ++ ys
drop-flush zero xs ys l = refl
drop-flush (suc n) [] ys l = absurd (omega arith)
drop-flush (suc n) (x ∷ xs) ys l = drop-flush n xs ys (omega arith)

-- The messages of the history that is being built, and of its part that is new.
abbrev text : Slicing → List Item
text s = contents s.history ++ map sent s.current_slice

abbrev new_text : Slicing → List Item
new_text s = contents (drop s.len_before s.history) ++ map sent s.current_slice

abbrev IsCut : Slicing → Type 0
IsCut s = s.len_before ≤ length s.history

sent-append : (c d : List ChatMessage) → map sent (c ++ d) ≡ map sent c ++ map sent d
sent-append [] d = refl
sent-append (m ∷ c) d = ap (λ t. sent m ∷ t) (sent-append c d)

text-user :
    (h : List Item) (c : List ChatMessage) (m : ChatMessage)
    → h ++ map sent (c ++ m ∷ []) ≡ (h ++ map sent c) ++ sent m ∷ []
text-user h c m = rw (sent-append, append_assoc) refl

text-apart :
    (h : List MessageRecord) (c : List ChatMessage) (m : ChatMessage)
    → contents (flushed h c ++ input (m ∷ []) ∷ []) ++ []
      ≡ (contents h ++ map sent c) ++ sent m ∷ []
text-apart h c m =
    append-nil (contents (flushed h c ++ input (m ∷ []) ∷ []))
    ∙ contents-append (flushed h c) (input (m ∷ []) ∷ [])
    ∙ ap (λ t. t ++ sent m ∷ []) (contents-flushed h c)

text-slice_message :
    (m : ChatMessage) (s : Slicing) → text (slice_message m s) ≡ one_more m (text s)
unfolding slice_message
text-slice_message m s = ground (
  arith,
  text-user (contents s.history) s.current_slice m,
  text-apart s.history s.current_slice m,
)

text-slice_all : (ms : List ChatMessage) (s : Slicing) → text (slice_all ms s) ≡ after ms (text s)
unfolding slice_all after from_last_prompt
text-slice_all [] s = sym (append-nil (text s))
text-slice_all (m ∷ ms) s =
    text-slice_all ms (slice_message m s)
    ∙ ap (after ms) (text-slice_message m s)
    ∙ sym (after-cons m ms (text s))

length-flushed : (h : List MessageRecord) (c : List ChatMessage) → length h ≤ length (flushed h c)
length-flushed h [] = omega arith
length-flushed h (m ∷ ms) = omega (arith, length-append h (input (m ∷ ms) ∷ []))

drop-flushed :
    (n : ℕ) (h : List MessageRecord) (c : List ChatMessage)
    → n ≤ length h
    → drop n (flushed h c) ≡ flushed (drop n h) c
drop-flushed n h [] l = refl
drop-flushed n h (m ∷ ms) l = drop-flush n h (input (m ∷ ms) ∷ []) l

drop-apart :
    (n : ℕ) (h : List MessageRecord) (c : List ChatMessage) (m : ChatMessage)
    → n ≤ length h
    → drop n (flushed h c ++ input (m ∷ []) ∷ []) ≡ flushed (drop n h) c ++ input (m ∷ []) ∷ []
drop-apart n h c m l =
    drop-flush n (flushed h c) (input (m ∷ []) ∷ []) (omega (arith, length-flushed h c, l))
    ∙ ap (λ t. t ++ input (m ∷ []) ∷ []) (drop-flushed n h c l)

cut-apart :
    (n : ℕ) (h : List MessageRecord) (c : List ChatMessage) (m : ChatMessage)
    → n ≤ length h
    → n ≤ length (flushed h c ++ input (m ∷ []) ∷ [])
cut-apart n h c m l =
    omega (arith, length-append (flushed h c) (input (m ∷ []) ∷ []), length-flushed h c, l)

-- A message moves the place from which the history is new to the start, or adds to what is new.
IsCut-slice_message :
    (m : ChatMessage) (s : Slicing)
    → IsCut s
    → IsCut (slice_message m s) × (new_text (slice_message m s) ≡ one_more m (new_text s))
unfolding slice_message
IsCut-slice_message m s l = (
  ground (arith, cut-apart s.len_before s.history s.current_slice m l, l),
  ground (
    arith,
    text-user (contents (drop s.len_before s.history)) s.current_slice m,
    drop-apart s.len_before s.history s.current_slice m l,
    text-apart (drop s.len_before s.history) s.current_slice m,
  ),
)

IsCut-slice_all :
    (ms : List ChatMessage) (s : Slicing)
    → IsCut s
    → IsCut (slice_all ms s) × (new_text (slice_all ms s) ≡ after ms (new_text s))
unfolding slice_all after from_last_prompt
IsCut-slice_all [] s l = (l, sym (append-nil (new_text s)))
IsCut-slice_all (m ∷ ms) s l =
    let (k, e) = IsCut-slice_message m s l in
    let (j, f) = IsCut-slice_all ms (slice_message m s) k in
    (j, f ∙ ap (after ms) e ∙ sym (after-cons m ms (new_text s)))

drop_all : {A : Type 0} (xs : List A) → drop (length xs) xs ≡ []
drop_all [] = refl
drop_all (x ∷ xs) = drop_all xs

-- Whatever the slices: the history that `_set_messages` makes has the messages of the old one and
-- then the new ones, or the new ones from the last system or developer message on if there is one;
-- and what it returns as new has the messages that came by this call.
pub set_messages-after :
    (ms : List ChatMessage) (before : List MessageRecord)
    → (contents (set_messages ms before).0 ≡ after ms (contents before))
      × (contents (set_messages ms before).1 ≡ after ms [])
unfolding set_messages
set_messages-after ms before =
    let s = slice_all ms (unsliced before) in
    let (l, e) = IsCut-slice_all ms (unsliced before) (omega arith) in
    (
      contents-flushed s.history s.current_slice
          ∙ text-slice_all ms (unsliced before)
          ∙ ap (after ms) (append-nil (contents before)),
      ap contents (drop-flushed s.len_before s.history s.current_slice l)
          ∙ contents-flushed (drop s.len_before s.history) s.current_slice
          ∙ e
          ∙ ap (λ t. after ms (contents t ++ [])) (drop_all before),
    )
