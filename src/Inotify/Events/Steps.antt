-- ===== src/Inotify/Events/Steps.antt =====
-- What handling an event does to the rest of the buffer.
use my_notes.Common.{
  ℕ, ◌≤◌, ◌≡◌, refl, Bool, true, false, List, [], ◌∷◌, Option, none, some, length, if◌then◌else◌,
  arith,
}
use my_notes.Inotify.World.{
  Os, World, Exit, Event, M, Outcome, ret, stop, Ensures, continue, ◌>>=◌, pure, halt, undefined,
}
use my_notes.Inotify.Events.{
  Step, consumed, discarded, hanging, ev_len, on_created, on_deleted, clear_slot, rebuild,
  on_renamed, on_moved_out, on_moved_from_next, on_moved_from, on_overflow, on_root_moved,
  on_move_self, handle_event, finish_event, process_next_inotify_event,
}

-- The step leaves at most `n` events of the buffer, and asks for more only at the first try.
abbrev pub Advances : ℕ → Bool → Step → Type 0
Advances n first_try (consumed k evs) = length evs ≤ n
Advances n first_try discarded = Unit
Advances n first_try hanging = first_try ≡ true

-- Every result that is returned satisfies `Q`.
pub record Yields {K A : Type 0} (Q : A → Type 0) (m : M K A) : Type 0 where
  pub result : (w : World K) → Ensures (λ a _. Q a) (λ _. Unit) (m w)

module _ {K A : Type 0} (Q : A → Type 0) where
  Yields-pure : (a : A) → Q a → Yields {K = K} Q (pure a)
  unfolding pure
  Yields-pure a q = record { result = λ w. q }

  Yields-halt : (e : Exit) → Yields {K = K} Q (halt e)
  unfolding halt
  Yields-halt e = record { result = λ w. tt }

  Yields-if : (b : Bool) (m n : M K A) → Yields Q m → Yields Q n → Yields Q (if b then m else n)
  Yields-if true m n h k = h
  Yields-if false m n h k = k

  -- the first branch may use its test
  Yields-if_true :
      (b : Bool) (m n : M K A)
      → (b ≡ true → Yields Q m)
      → Yields Q n
      → Yields Q (if b then m else n)
  Yields-if_true true m n h k = h refl
  Yields-if_true false m n h k = k

  module _ {B : Type 0} where
    Yields-elim :
        (o : Option B) (m : M K A) (f : B → M K A)
        → Yields Q m
        → ((b : B) → Yields Q (f b))
        → Yields Q (elim o [ none ↦ m | some b ↦ f b ])
    Yields-elim none m f h k = h
    Yields-elim (some b) m f h k = k b

    Yields-bind :
        (P : B → Type 0) (m : M K B) (f : B → M K A)
        → Yields P m
        → ((b : B) → P b → Yields Q (f b))
        → Yields Q (m >>= f)
    unfolding ◌>>=◌
    Yields-bind P m f h k = record { result = λ w. go (m w) (h.result w) }
      where
        go :
            (o : Outcome K B)
            → Ensures (λ b _. P b) (λ _. Unit) o
            → Ensures (λ a _. Q a) (λ _. Unit) (continue o f)
        go (ret b w) p = (k b p).result w
        go (stop e w) p = tt

    -- where the first result does not matter
    Yields-then : (m : M K B) (f : B → M K A) → ((b : B) → Yields Q (f b)) → Yields Q (m >>= f)
    Yields-then m f k =
        Yields-bind (λ _. Unit) m f (record { result = λ w. any (m w) }) (λ b _. k b)
      where
        any : (o : Outcome K B) → Ensures (λ _ _. Unit) (λ _. Unit) o
        any (ret b w) = tt
        any (stop e w) = tt

module _ {K : Type 0} (os : Os K) (n : ℕ) (first_try : Bool) where
  rebuild-Advances : Yields (Advances n first_try) (rebuild os)
  unfolding rebuild
  rebuild-Advances = Yields-then _ _ _ (λ _. Yields-pure _ discarded tt)

  on_renamed-Advances :
      (slot : Option ℕ) (ev next : Event) (rest : List Event)
      → length rest ≤ n
      → Yields (Advances n first_try) (on_renamed os slot ev next rest)
  unfolding on_renamed
  on_renamed-Advances slot ev next rest h = Yields-then _ _ _ (λ next_slot.
      Yields-elim _ next_slot _ _ rebuild-Advances (λ j.
        Yields-then _ _ _
          (λ _. Yields-then _ _ _ (λ _. Yields-then _ _ _ (λ _. Yields-pure _ _ h)))))

  on_moved_out-Advances :
      (slot : Option ℕ) (ev : Event) (rest : List Event)
      → length rest ≤ n
      → Yields (Advances n first_try) (on_moved_out os slot ev rest)
  unfolding on_moved_out
  on_moved_out-Advances slot ev rest h = Yields-then _ _ _ (λ path.
      Yields-then _ _ _ (λ cnt. Yields-elim _ cnt _ _ rebuild-Advances (λ _. Yields-pure _ _ h)))

  on_moved_from_next-Advances :
      (slot : Option ℕ) (ev : Event) (rest : List Event)
      → length rest ≤ n
      → Yields (Advances n first_try) (on_moved_from_next os slot ev rest)
  unfolding on_moved_from_next
  on_moved_from_next-Advances slot ev [] h = Yields-halt _ undefined
  on_moved_from_next-Advances slot ev (next ∷ rest) h =
      Yields-if _ _ _ _ (on_renamed-Advances slot ev next rest (omega arith))
        (on_moved_out-Advances slot ev (next ∷ rest) h)

  on_moved_from-Advances :
      (slot : Option ℕ) (ev : Event) (rest : List Event) (buf_size : ℕ)
      → length rest ≤ n
      → Yields (Advances n first_try) (on_moved_from os slot ev rest buf_size first_try)
  unfolding on_moved_from
  on_moved_from-Advances slot ev rest buf_size h =
      Yields-if _ _ _ _ (on_moved_from_next-Advances slot ev rest h) (
        Yields-if_true _ first_try _ _ (λ e. Yields-pure _ hanging e)
          (on_moved_out-Advances slot ev rest h))

  on_move_self-Advances :
      (slot : Option ℕ) (ev : Event) (rest : List Event)
      → length rest ≤ n
      → Yields (Advances n first_try) (on_move_self os slot ev rest)
  unfolding on_move_self on_root_moved
  on_move_self-Advances slot ev rest h = Yields-then _ _ _ (λ path. Yields-then _ _ _ (λ is_root.
      Yields-if _ is_root _ _
        (Yields-then _ _ _ (λ path. Yields-then _ _ _ (λ _.
          Yields-then _ _ _
            (λ cnt. Yields-elim _ cnt _ _ rebuild-Advances (λ _. Yields-pure _ _ h)))))
        (Yields-pure _ _ h)))

  on_overflow-Advances : Yields (Advances n first_try) (on_overflow os)
  unfolding on_overflow
  on_overflow-Advances =
      Yields-then _ _ _ (λ _. Yields-then _ _ _ (λ _. Yields-pure _ _ (omega arith)))

  handle_event-Advances :
      (slot : Option ℕ) (ev : Event) (rest : List Event) (buf_size : ℕ)
      → length rest ≤ n
      → Yields (Advances n first_try) (handle_event os slot ev rest buf_size first_try)
  unfolding handle_event
  handle_event-Advances slot ev rest buf_size h =
      let stay : Yields (Advances n first_try) (pure {K = K} (consumed (ev_len ev) rest)) =
        Yields-pure _ (consumed (ev_len ev) rest) h in
      Yields-if _ _ _ _ (Yields-then _ (on_created os slot ev) _ (λ _. stay)) (
        Yields-if _ _ _ _ (Yields-then _ (on_deleted os slot) _ (λ _. stay)) (
          Yields-if _ _ _ _ (on_moved_from-Advances slot ev rest buf_size h) (
            Yields-if _ _ _ _ (on_overflow-Advances) (
              Yields-if _ _ _ _ (Yields-then _ (clear_slot slot) _ (λ _. stay))
                (Yields-if _ _ _ _ (on_move_self-Advances slot ev rest h) (stay))))))

  finish_event-Advances :
      (s : Step) → Advances n first_try s → Yields (Advances n first_try) (finish_event os s)
  unfolding finish_event
  finish_event-Advances (consumed k evs) h = Yields-then _ _ _ (λ _.
      Yields-then _ _ _ (λ _. Yields-then _ _ _ (λ _. Yields-then _ _ _ (λ _. Yields-pure _ _ h))))
  finish_event-Advances discarded h = Yields-pure _ discarded tt
  finish_event-Advances hanging h = Yields-pure _ hanging h

-- After an event at most the events behind it are left in the buffer, and more input is asked for
-- only at the first try.
pub process_next_inotify_event-Advances :
    {K : Type 0} (os : Os K) (ev : Event) (rest : List Event) (buf_size : ℕ) (first_try : Bool)
    → Yields
        (Advances (length rest) first_try)
        (process_next_inotify_event os ev rest buf_size first_try)
unfolding process_next_inotify_event
process_next_inotify_event-Advances os ev rest buf_size first_try =
    let n = length rest in
    Yields-if _ _ _ _
      (Yields-then _ _ _ (λ slot. Yields-elim _ slot _ _ (rebuild-Advances os n first_try) (λ j.
        Yields-bind _ _ _ _
          (handle_event-Advances os n first_try (some j) ev rest buf_size (omega arith))
          (finish_event-Advances os n first_try))))
      (Yields-bind _ _ _ _
        (handle_event-Advances os n first_try none ev rest buf_size (omega arith))
        (finish_event-Advances os n first_try))
