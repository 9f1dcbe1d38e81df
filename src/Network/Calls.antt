-- ===== src/Network/Calls.antt =====
-- The calls on a connection keep what holds of a server.
use clibmedia_transfer_proto.Common.{
  ℕ, ◌≡◌, refl, inl, inr, Bool, true, Option, none, some, List, [], ◌∷◌, ◌++◌, Bool-cases,
  Option-cases,
}
use clibmedia_transfer_proto.Network.{
  Acted, Connection, close_socket, send_data, TcpServer, Call, async_send, close, hand_on, Output,
  put, call, calls, with_context,
}
use clibmedia_transfer_proto.Network.Steps.{KeepsOpen, MayKeepOpen}
use clibmedia_transfer_proto.Network.Kept.{Inv, posted-Inv, put-Inv}

module _ {E : Type 0} where
  KeepsOpen-split :
      (one : Call E) (rest : List (Call E))
      → KeepsOpen (one ∷ rest)
      → KeepsOpen (one ∷ []) × KeepsOpen rest
  KeepsOpen-split (async_send data') rest h = (tt, h)
  KeepsOpen-split close rest h = absurd (cc)
  KeepsOpen-split (hand_on e) rest h = (tt, h)

module _ {C E : Type 0} where
  abbrev pub Keeps : (ℕ → Bool) → (ℕ → Bool) → Acted C E → Type 0
  Keeps opened closed none = Unit
  Keeps opened closed (some (s, out)) = Inv opened closed s

  module _ (opened closed : ℕ → Bool) (c : ℕ) where
    call-Keeps :
        (one : Call E) (s : TcpServer C)
        → (closed c ≡ true → KeepsOpen (one ∷ []))
        → Inv opened closed s
        → Keeps opened closed (call c one s)
    unfolding call
    call-Keeps (async_send data') s h i = elim (Option-cases (s.tcp_sessions c)) [
      | inl e ↦ rw (call, e) tt
      | inr (k, e) ↦
          rw (call, e)
            (elim (Bool-cases k.available_write) [
              | inl w ↦ rw w (
                  posted-Inv opened closed c s k (send_data c data') (λ p d. refl) refl e
                    (elim (Bool-cases (closed c)) [
                      | inl q ↦ let unwritten = i.shut c k e q in absurd (cc)
                      | inr q ↦ q
                    ])
                    i)
              | inr w ↦ rw w i
            ])
    ]
    call-Keeps close s h i = elim (Option-cases (s.tcp_sessions c)) [
      | inl e ↦ rw (call, e) tt
      | inr (k, e) ↦
          rw (call, e)
            (posted-Inv opened closed c s k (close_socket c) (λ p d. refl) refl e
              (elim (Bool-cases (closed c)) [ inl q ↦ absurd (cc (h q)) | inr q ↦ q ]) i)
    ]
    call-Keeps (hand_on x) s h i = i

    calls-Keeps :
        (list : List (Call E)) (s : TcpServer C)
        → (closed c ≡ true → KeepsOpen list)
        → Inv opened closed s
        → Keeps opened closed (calls c list s)
    unfolding calls
    calls-Keeps [] s h i = i
    calls-Keeps (one ∷ rest) s h i =
        next (λ s' k. calls-Keeps rest s' (λ q. (KeepsOpen-split one rest (h q)).1) k)
          (call c one s) (call-Keeps one s (λ q. (KeepsOpen-split one rest (h q)).0) i)
      where
        prefixed :
            (out : List (Output E)) (r : Acted C E)
            → Keeps opened closed r
            → Keeps opened closed
                (elim r [ none ↦ none | some (s'', more) ↦ some (s'', out ++ more) ])
        prefixed out none k = tt
        prefixed out (some (s', more)) k = k

        next :
            ((s' : TcpServer C) → Inv opened closed s' → Keeps opened closed (calls c rest s'))
            → (r : Acted C E) → Keeps opened closed r
            → Keeps opened closed (elim r [
              | none ↦ none
              | some (s', out) ↦ elim (calls c rest s') [
                | none ↦ none
                | some (s'', more) ↦ some (s'', out ++ more)
              ]
            ])
        next others none k = tt
        next others (some (s', out)) k = prefixed out (calls c rest s') (others s' k)

    pub with_context-Keeps :
        (work : C → Option (C × List (Call E))) (k : Connection C) (s : TcpServer C)
        → s.tcp_sessions c ≡ some k
        → (closed c ≡ true → (x : C) → MayKeepOpen (work x))
        → Inv opened closed s
        → Keeps opened closed (with_context c work k s)
    unfolding with_context
    with_context-Keeps work k s e h i = elim (Option-cases k.context) [
      | inl e' ↦ rw (with_context, e') i
      | inr (x, e') ↦ rw (with_context, e') (worked (work x) (λ q. h q x))
    ]
      where
        worked :
            (r : Option (C × List (Call E)))
            → (closed c ≡ true → MayKeepOpen r)
            → Keeps opened closed (elim r [
              | none ↦ none
              | some (x', list) ↦ calls c list (put c (some (record k { context = some x' })) s)
            ])
        worked none m = tt
        worked (some (x', list)) m =
            calls-Keeps list _ m
              (put-Inv opened closed s c k (record k { context = some x' }) e (i.shut c k e) i)
