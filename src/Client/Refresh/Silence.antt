-- ===== src/Client/Refresh/Silence.antt =====
-- After a logout no refresh brings the tokens back.
use stead.Prelude.{
  ℕ, ◌⊎◌, ◌≡◌, refl, Option, Bool, true, false, none, some, arith, inl, inr, ◌∙◌, ap, sym, subst,
}
use stead.Client.Store.{Slot, TokenStore, get_value, clear_value, clear_token}
use stead.Client.Refresh.{
  Client, Step, Steps, Logout, abandon_in_flight_refresh, rotate_access_token,
  session_was_persisted, rotates, reads, answers, writes, persists, throws, abandons, clears, stay,
  next,
}

-- Refreshing is off.
abbrev Off : Client → Type 0
Off c = c.refresh_allowed ≡ false

-- It is off and no refresh is in flight.
abbrev Idle : Client → Type 0
Idle c = Off c × (c.refresh_in_flight ≡ none)

Step-Off : (c d : Client) → Step c d → Off c → Off d
unfolding abandon_in_flight_refresh rotate_access_token session_was_persisted
Step-Off c d (rotates e) off = ground arith
Step-Off c d (reads f none in_flight phase e) off = ground arith
Step-Off c d (reads f (some t) in_flight phase e) off = ground arith
Step-Off c d (answers f t none in_flight phase e) off = ground arith
Step-Off c d (answers f t (some s) in_flight phase e) off = ground arith
Step-Off c d (writes f s access refresh in_flight phase e) off =
    ap (λ x. x.refresh_allowed) (sym e) ∙ off
Step-Off c d (persists f s token in_flight phase e) off = ground arith
Step-Off c d (throws f in_flight e) off = ground arith
Step-Off c d (abandons e) off = ground arith
Step-Off c d (clears access refresh e) off = ap (λ x. x.refresh_allowed) (sym e) ∙ off

Steps-Off : (c d : Client) → Steps c d → Off c → Off d
Steps-Off c d stay off = off
Steps-Off c e (next {d} steps step) off = Step-Off d e step (Steps-Off c d steps off)

Step-Idle : (c d : Client) → Step c d → Idle c → d.refresh_in_flight ≡ none
unfolding abandon_in_flight_refresh rotate_access_token session_was_persisted
Step-Idle c d (rotates e) (off, no_flight) = ground arith
Step-Idle c d (reads f t in_flight phase e) (off, no_flight) = absurd (ground arith)
Step-Idle c d (answers f t s in_flight phase e) (off, no_flight) = absurd (ground arith)
Step-Idle c d (writes f s access refresh in_flight phase e) (off, no_flight) = absurd (cc)
Step-Idle c d (persists f s token in_flight phase e) (off, no_flight) = absurd (ground arith)
Step-Idle c d (throws f in_flight e) (off, no_flight) = absurd (ground arith)
Step-Idle c d (abandons e) (off, no_flight) = ground arith
Step-Idle c d (clears access refresh e) (off, no_flight) =
    ap (λ x. x.refresh_in_flight) (sym e) ∙ no_flight

Steps-Idle : (c d : Client) → Steps c d → Idle c → Idle d
Steps-Idle c d stay idle = idle
Steps-Idle c e (next {d} steps step) idle =
    let before = Steps-Idle c d steps idle in
    (Step-Off d e step before.0, Step-Idle d e step before)

-- What is read of the second slot, by a call of the SecureStore that works and by one that fails, is
-- nothing or what is read of the first one.
abbrev pub NoMore : Slot → Slot → Type 0
NoMore s s' =
    (works : Bool) → (get_value works s' ≡ none) ⊎ (get_value works s' ≡ get_value works s)

Step-stored :
    (c d : Client)
    → Step c d
    → Idle c
    → (d.stored ≡ c.stored)
      ⊎ ((access : Bool) × (refresh : Bool) × (d.stored ≡ clear_token access refresh c.stored))
unfolding abandon_in_flight_refresh rotate_access_token session_was_persisted
Step-stored c d (rotates e) (off, no_flight) = inl (ground arith)
Step-stored c d (reads f t in_flight phase e) (off, no_flight) = absurd (ground arith)
Step-stored c d (answers f t s in_flight phase e) (off, no_flight) = absurd (ground arith)
Step-stored c d (writes f s access refresh in_flight phase e) (off, no_flight) = absurd (cc)
Step-stored c d (persists f s token in_flight phase e) (off, no_flight) = absurd (ground arith)
Step-stored c d (throws f in_flight e) (off, no_flight) = absurd (ground arith)
Step-stored c d (abandons e) (off, no_flight) = inl (ap (λ x. x.stored) (sym e))
Step-stored c d (clears access refresh e) (off, no_flight) =
    inr (access, refresh, ap (λ x. x.stored) (sym e))

shown : (a b c : Option ℕ) → a ≡ b → (b ≡ none) ⊎ (b ≡ c) → (a ≡ none) ⊎ (a ≡ c)
shown a b c same (inl nothing) = inl (same ∙ nothing)
shown a b c same (inr kept) = inr (same ∙ kept)

-- No value is in memory, and no more can be read than of the first slot.
abbrev Kept : Slot → Slot → Type 0
Kept s s' = (s'.memory ≡ none) × NoMore s s'

clear_value-memory : (works : Bool) (s : Slot) → (clear_value works s).memory ≡ none
clear_value-memory true s = refl
clear_value-memory false s = refl

clear_value-NoMore : (deleted : Bool) (s s' : Slot) → Kept s s' → NoMore s (clear_value deleted s')
clear_value-NoMore true s s' (empty, less) true = inl refl
clear_value-NoMore true s s' (empty, less) false =
    let same : get_value false (clear_value true s') ≡ get_value false s' = rw empty refl in
    shown _ _ _ same (less false)
clear_value-NoMore false s s' (empty, less) true =
    let same : get_value true (clear_value false s') ≡ get_value true s' = rw empty refl in
    shown _ _ _ same (less true)
clear_value-NoMore false s s' (empty, less) false = inl refl

clear_value-Kept : (deleted : Bool) (s s' : Slot) → Kept s s' → Kept s (clear_value deleted s')
clear_value-Kept deleted s s' kept =
    (clear_value-memory deleted s', clear_value-NoMore deleted s s' kept)

clear_value-none : (works : Bool) (s : Slot) → get_value works (clear_value works s) ≡ none
clear_value-none true s = refl
clear_value-none false s = refl

-- Nothing more can be read of either token.
abbrev StoreKept : TokenStore → TokenStore → Type 0
StoreKept s s' = Kept s.access s'.access × Kept s.refresh s'.refresh

Steps-StoreKept :
    (c d : Client) (s : TokenStore)
    → Steps c d
    → Idle c
    → StoreKept s c.stored
    → StoreKept s d.stored
Steps-StoreKept c d s stay idle kept = kept
Steps-StoreKept c e s (next {d} steps step) idle kept =
    let before = Steps-StoreKept c d s steps idle kept in
    elim (Step-stored d e step (Steps-Idle c d steps idle)) [
      | inl same ↦ subst (StoreKept s) (sym same) before
      | inr (access, refresh, cleared) ↦ subst (StoreKept s) (sym cleared) (
        clear_value-Kept access s.access d.stored.access before.0,
        clear_value-Kept refresh s.refresh d.stored.refresh before.1,
      )
    ]

unread :
    (works : Bool) (s s' : Slot)
    → NoMore s s'
    → get_value works s ≡ none
    → get_value works s' ≡ none
unread works s s' less e = elim (less works) [ inl nothing ↦ nothing | inr same ↦ same ∙ e ]

logged_out-Idle : (access refresh : Bool) (c out : Client) → Logout access refresh c out → Idle out
unfolding abandon_in_flight_refresh
logged_out-Idle access refresh c out logout =
    let off = Steps-Off (abandon_in_flight_refresh c) logout.waited logout.before refl in
    let still : logout.waited.refresh_in_flight ≡ none = elim logout.awaited [
      | inl never ↦
          (Steps-Idle (abandon_in_flight_refresh c) logout.waited logout.before (refl, never)).1
      | inr ended ↦ ended
    ] in
    subst Idle logout.cleared (off, still)

-- A logout leaves no refresh in flight, and until the next sign-in no later refresh, request or
-- further logout brings a token back: at any later time, what is read of either token, by a call of the
-- SecureStore that works and by one that fails, is nothing or what is read right after the logout.
-- Nothing is read of a token by a call that works, where its deletion at the logout worked, and by one
-- that fails, where that failed: a token whose deletion failed can stay in the SecureStore.
pub Logout-NoMore :
    (access refresh : Bool) (c out after : Client)
    → Logout access refresh c out
    → Steps out after
    → NoMore out.stored.access after.stored.access
      × NoMore out.stored.refresh after.stored.refresh
      × (get_value access after.stored.access ≡ none)
      × (get_value refresh after.stored.refresh ≡ none)
      × (after.refresh_in_flight ≡ none)
Logout-NoMore access refresh c out after logout later =
    let idle = logged_out-Idle access refresh c out logout in
    let store = logout.waited.stored in
    let empty : StoreKept (clear_token access refresh store) out.stored =
      subst (λ x. StoreKept (clear_token access refresh store) x.stored) logout.cleared
        (
          (clear_value-memory access store.access, λ works. inr refl),
          (clear_value-memory refresh store.refresh, λ works. inr refl),
        ) in
    let same = ap (λ x. x.stored) logout.cleared in
    let kept = Steps-StoreKept out after (clear_token access refresh store) later idle empty in
    let kept : StoreKept out.stored after.stored =
      subst (λ s. StoreKept s after.stored) same kept in
    let first =
      ap (λ s. get_value access s.access) (sym same) ∙ clear_value-none access store.access in
    let second =
      ap (λ s. get_value refresh s.refresh) (sym same) ∙ clear_value-none refresh store.refresh in
    (
      kept.0.1,
      kept.1.1,
      unread access out.stored.access after.stored.access kept.0.1 first,
      unread refresh out.stored.refresh after.stored.refresh kept.1.1 second,
      (Steps-Idle out after later idle).1,
    )
