-- ===== src/PubSub/Delivered.antt =====
-- PUBLISH of pub_sub.rs: what each client finds in its channel, and who is counted.
use cache_cat.Prelude.{
  ℕ, ◌≡◌, refl, ◌∙◌, ap, sym, subst, Bool, true, false, ◌&&◌, ◌||◌, none, List, [], ◌∷◌, ◌++◌,
  Bytes, same, same_iff, same_self, bytes_eq, nat_eq, length, arith, Bool-cases, inl, inr,
}
use cache_cat.Value.{Value}
use cache_cat.Value.Table.{names, lookup, IsTable}
use cache_cat.Value.HashSet.{IsDistinct}
use cache_cat.PubSub.{ClientState, PubSub, Side, table, or_empty}
use cache_cat.PubSub.Publish.{
  matches_pattern, message, pmessage, pattern_targets, send_all, send_patterns, publish,
}
use cache_cat.PubSub.Tables.{holds, IsRegistry}
use cache_cat.PubSub.Registry.{IsSound, Does}
use cache_cat.PubSub.Sends.{
  SameStates, held_by, latest, frame_if, Sent, Sent-same, Sent-then, reachable, reachable-same,
  to_set, send_all_lem,
}

-- Whether some pattern that matches the channel has the client in its set, and the frames that are sent to it then.
abbrev pub by_pattern : List (Bytes × List ℕ) → Bytes → ℕ → Bool
by_pattern [] channel i = false
by_pattern ((pattern, set) ∷ patterns) channel i =
    (matches_pattern channel pattern && names set i) || by_pattern patterns channel i

abbrev pub pattern_frames : List (Bytes × List ℕ) → Bytes → Bytes → ℕ → List Value
pattern_frames [] channel content i = []
pattern_frames ((pattern, set) ∷ patterns) channel content i =
    frame_if (matches_pattern channel pattern && names set i) (pmessage pattern channel content)
    ++ pattern_frames patterns channel content i

-- Frames for a client that is there and listens, and none for another.
abbrev pub only : Bool → List Value → List Value
only true frames = frames
only false frames = []

IsRegistry-tail :
    (name : Bytes) (set : List ℕ) (subs : List (Bytes × List ℕ))
    → IsRegistry ((name, set) ∷ subs)
    → IsDistinct set × IsRegistry subs
IsRegistry-tail name set subs h = (own, (h.0.1, rest))
  where
    own : IsDistinct set
    own =
        let now : or_empty (lookup ((name, set) ∷ subs) name) ≡ set = rw (same_self name) refl in
        subst IsDistinct now (h.1 name)

    rest : (c : Bytes) → IsDistinct (or_empty (lookup subs c))
    rest c = elim (Bool-cases (same name c)) [
      | inl here ↦
          let gone : lookup subs c ≡ none =
            subst (λ x. lookup subs x ≡ none) ((same_iff name c).0 here) h.0.0 in
          rw gone tt
      | inr other ↦
          let same_set : or_empty (lookup ((name, set) ∷ subs) c) ≡ or_empty (lookup subs c) =
            rw other refl in
          subst IsDistinct same_set (h.1 c)
    ]

module _ (listens : ℕ → Bool) where
  two_parts :
      (clients clients' : List (ℕ × ClientState)) (set : List ℕ) (later : Bool) (frame : Value)
      (frames : List Value) (i : ℕ)
      → SameStates clients clients'
      → ((to_set listens clients set i || (reachable listens clients' i && later))
          ≡ (reachable listens clients i && (names set i || later)))
        × ((frame_if (to_set listens clients set i) frame
              ++ only (reachable listens clients' i) frames)
            ≡ only (reachable listens clients i) (frame_if (names set i) frame ++ frames))
  two_parts clients clients' set later frame frames i e =
      rw (reachable-same listens clients clients' i e)
        (elim (Bool-cases (reachable listens clients i)) [
          | inl here ↦ elim (Bool-cases (names set i)) [
            | inl found ↦ rw (here, found) (refl, refl)
            | inr past ↦ rw (here, past) (refl, refl)
          ]
          | inr gone ↦ elim (Bool-cases (names set i)) [
            | inl found ↦ rw (gone, found) (refl, refl)
            | inr past ↦ rw (gone, past) (refl, refl)
          ]
        ])

  send_patterns_lem :
      (clients : List (ℕ × ClientState)) (channel content : Bytes)
      (patterns : List (Bytes × List ℕ)) (delivered : List ℕ)
      → IsTable clients
      → IsRegistry patterns
      → IsDistinct delivered
      → Sent clients delivered
          (λ i. reachable listens clients i && by_pattern patterns channel i)
          (λ i. only (reachable listens clients i) (pattern_frames patterns channel content i))
          (send_patterns listens clients channel content
            (pattern_targets patterns channel)
            delivered)
  unfolding send_patterns
  send_patterns_lem clients channel content [] delivered h r k = (
    (h, λ s i. refl, λ i. refl),
    k,
    λ i. ground arith,
    λ i. elim (Bool-cases (reachable listens clients i)) [
      | inl here ↦ rw here refl
      | inr gone ↦ rw gone refl
    ],
  )
  send_patterns_lem clients channel content ((pattern, set) ∷ patterns) delivered h r k =
      let tail = IsRegistry-tail pattern set patterns r in
      elim (Bool-cases (matches_pattern channel pattern)) [
        | inr apart ↦
            rw apart (send_patterns_lem clients channel content patterns delivered h tail.1 k)
        | inl matching ↦
            let frame = pmessage pattern channel content in
            let one = send_all_lem listens clients frame set delivered h tail.0 k in
            let (clients', delivered') = send_all listens clients frame set delivered in
            let rest =
              send_patterns_lem clients' channel content patterns delivered' one.0.0 tail.1 one.1 in
            let out =
              send_patterns listens clients' channel content (pattern_targets patterns channel)
                delivered' in
            let got = λ (i : ℕ). reachable listens clients' i && by_pattern patterns channel i in
            let frames = λ (i : ℕ).
              only (reachable listens clients' i) (pattern_frames patterns channel content i) in
            rw matching (
              Sent-same clients delivered (λ i. to_set listens clients set i || got i)
                (λ i. reachable listens clients i && (names set i || by_pattern patterns channel i))
                (λ i. frame_if (to_set listens clients set i) frame ++ frames i)
                (λ i.
                  only (reachable listens clients i)
                    (frame_if (names set i) frame ++ pattern_frames patterns channel content i))
                out
                (λ i.
                  two_parts clients clients' set (by_pattern patterns channel i) frame
                    (pattern_frames patterns channel content i) i one.0)
                (Sent-then clients clients' delivered delivered' (to_set listens clients set) got
                  (λ i. frame_if (to_set listens clients set i) frame) frames out one rest))
      ]

  -- A published message: what is sent to each client, in this order, what it then finds, and who is
  -- counted.
  abbrev pub exact_frame : PubSub → Bytes → Bytes → ℕ → List Value
  exact_frame ps channel content i = frame_if (holds ps.subs channel i) (message channel content)

  abbrev pub Published : PubSub → Bytes → Bytes → Value × PubSub → Type 0
  Published ps channel content (reply, ps') =
      (delivered : List ℕ) × (reply ≡ Value.integer (length delivered))
      × IsDistinct delivered
      × ((i : ℕ)
          → names delivered i ≡ (
              reachable listens ps.clients i
              && (holds ps.subs channel i || by_pattern ps.patterns channel i)))
      × ((i : ℕ)
          → held_by (lookup ps'.clients i)
            ≡ latest (held_by (lookup ps.clients i)) (
                only (reachable listens ps.clients i) (
                  exact_frame ps channel content i
                  ++ pattern_frames ps.patterns channel content i)))
      × Does ps (λ s c i. holds (table s ps) c i) ps'

  same_relation :
      (ps : PubSub) (clients : List (ℕ × ClientState))
      → IsSound ps
      → SameStates ps.clients clients
      → Does ps (λ s c i. holds (table s ps) c i) (record ps { clients = clients })
  same_relation ps clients h e =
      let same_table : (s : Side) → table s (record ps { clients = clients }) ≡ table s ps =
        tables in
      (
        (
          λ s. subst IsRegistry (sym (same_table s)) (h.0 s),
          e.0,
          λ s i. subst IsDistinct (sym (e.1 s i)) (h.2 s i),
          λ s c i.
              ap (λ t. holds t c i) (same_table s)
              ∙ h.3 s c i
              ∙ ap (λ l. names l c) (sym (e.1 s i)),
        ),
        λ s c i. ap (λ t. holds t c i) (same_table s),
      )
    where
      tables : (s : Side) → table s (record ps { clients = clients }) ≡ table s ps
      tables Side.exact = refl
      tables Side.pattern_ = refl

  -- PUBLISH on a state whose two accounts agree. The reply is the size of a set without repetition,
  -- that of the clients that are there, listen, and are subscribed to the channel or to a pattern
  -- that matches it. The channel of each of these is sent the message if the client is subscribed to
  -- the channel, and then a frame for each matching pattern of the client in the order of the
  -- table; of these frames only the last is held after the call. The channel of any other client
  -- holds what it held. The accounts still agree, and nobody is subscribed to anything else.
  pub publish_lem :
      (ps : PubSub) (channel content : Bytes)
      → IsSound ps
      → Published ps channel content (publish listens ps channel content)
  unfolding publish
  publish_lem ps channel content h =
      let set = or_empty (lookup ps.subs channel) in
      let exact_registry = h.0 Side.exact in
      let one =
        send_all_lem listens ps.clients (message channel content) set [] h.1
          (exact_registry.1 channel) tt in
      let (clients, delivered) = send_all listens ps.clients (message channel content) set [] in
      let rest =
        send_patterns_lem clients channel content ps.patterns delivered one.0.0 (h.0 Side.pattern_)
          one.1 in
      let out =
        send_patterns listens clients channel content (pattern_targets ps.patterns channel)
          delivered in
      let frame = message channel content in
      let later = λ (i : ℕ). by_pattern ps.patterns channel i in
      let later_frames = λ (i : ℕ). pattern_frames ps.patterns channel content i in
      let got = λ (i : ℕ). reachable listens clients i && later i in
      let frames = λ (i : ℕ). only (reachable listens clients i) (later_frames i) in
      let all : Sent ps.clients [] (λ i. reachable listens ps.clients i && (names set i || later i))
          (λ i.
            only (reachable listens ps.clients i) (frame_if (names set i) frame ++ later_frames i))
          out =
        Sent-same ps.clients [] (λ i. to_set listens ps.clients set i || got i)
          (λ i. reachable listens ps.clients i && (names set i || later i))
          (λ i. frame_if (to_set listens ps.clients set i) frame ++ frames i)
          (λ i.
            only (reachable listens ps.clients i) (frame_if (names set i) frame ++ later_frames i))
          out (λ i. two_parts ps.clients clients set (later i) frame (later_frames i) i one.0)
          (Sent-then ps.clients clients [] delivered (to_set listens ps.clients set) got
            (λ i. frame_if (to_set listens ps.clients set i) frame) frames out one rest) in
      (out.1, refl, all.1, all.2, all.3, same_relation ps out.0 h all.0)
