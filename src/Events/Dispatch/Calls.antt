-- ===== src/Events/Dispatch/Calls.antt =====
-- What `handleEvent` calls, where the handlers leave the tables of handlers alone.
use java_study_project.Base.{
  ℕ, ◌≡◌, ◌≢◌, Bool, true, false, ◌||◌, Option, none, some, List, [], ◌∷◌, ◌==◌, map, All,
}
use java_study_project.Text.{Text}
use java_study_project.Events.{Listener, HandlerTable, Page, lookup, find}
use java_study_project.Events.Dispatch.{Event, after_call}

abbrev cons_found : ℕ → Option Listener → HandlerTable → HandlerTable
cons_found guid none entries = entries
cons_found guid (some l) entries = (guid, l) ∷ entries

-- What a table has under keys, in their order, with the keys.
unfoldable pub entries_at : Option HandlerTable → List ℕ → HandlerTable
entries_at handlers [] = []
entries_at handlers (i ∷ is) = cons_found i (find i handlers) (entries_at handlers is)

-- No number stands in the list twice.
abbrev pub AreApart : List ℕ → Type 0
AreApart [] = Unit
AreApart (n ∷ ns) = All (λ m. m ≢ n) ns × AreApart ns

abbrev pub has_key : ℕ → List ℕ → Bool
has_key n [] = false
has_key n (m ∷ ms) = m == n || has_key n ms

abbrev guids : HandlerTable → List ℕ
guids = map (λ e. e.0)

module _ {S : Type 0} (page : S → Page) (call : ℕ → Listener → Event → S → Bool × S)
    (keys : HandlerTable → List ℕ) where
  -- The listeners called one after the other; the value is false if one of them gave false.
  abbrev pub call_all : ℕ → Event → List Listener → Bool × S → Bool × S
  call_all element event [] (value, s) = (value, s)
  call_all element event (l ∷ listeners) (value, s) =
      call_all element event listeners (after_call page call keys value (call element l event s))

  -- No call changes a table of handlers.
  abbrev pub IsQuiet : Type 0
  IsQuiet =
      (element : ℕ) (l : Listener) (event : Event) (s : S) (other : ℕ) (kind : Text)
      → (page (call element l event s).1).events other kind ≡ (page s).events other kind

  -- The keys of a table: each of them once, and every one under which something is found.
  pub record IsEnumeration : Type 0 where
    pub once : (handlers : HandlerTable) → AreApart (keys handlers)
    pub all :
        (handlers : HandlerTable) (guid : ℕ) (l : Listener)
        → lookup guid handlers ≡ some l
        → has_key guid (keys handlers) ≡ true
