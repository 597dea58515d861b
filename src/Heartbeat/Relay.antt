-- ===== src/Heartbeat/Relay.antt =====
-- What a WebSocket connection makes the server relay.
use embewi_core.Base.{
  ◌≡◌, refl, ap, ◌∙◌, Bool, true, false, Option, none, some, List, [], ◌∷◌, Result, ok, err,
}
use embewi_core.Api.Meta.{Bytes}
use embewi_core.Api.Node.{McuNode}
use embewi_core.Heartbeat.Payload.{LogPayload}
use embewi_core.Heartbeat.Request.{IncomingRequest, upgraded}
use embewi_core.Heartbeat.Nodes.{Server, matches, among, among_listed, find_node}
use embewi_core.Heartbeat.Tokens.{TokenMatch, no_match, current, previous}
use embewi_core.Heartbeat.Authentic.{IsAuthentic, Accepts, validate_token-IsAuthentic}
use embewi_core.Heartbeat.Guarded.{Guarded, among_listed-Keeps, validate_token-Keeps}
use embewi_core.Heartbeat.Logs.{
  log_entry, is_match, authenticate_node, authenticate, first_entry, frame, read_frames,
  handle_log_ws,
}
use embewi_core.World.Call.{History, nodes_listed}
use embewi_core.World.Env.{Env}
use embewi_core.World.Action.{World, M}
use embewi_core.World.Emits.{Extends, same, more, Extends-trans}

abbrev or_entry : Result LogPayload → Option LogPayload → Option LogPayload
or_entry (ok entry) later = some entry
or_entry (err e) later = later

is_match-Accepts : (m : TokenMatch) → is_match m ≡ true → Accepts m
is_match-Accepts no_match h = absurd (cc)
is_match-Accepts (current secret) h = tt
is_match-Accepts (previous secret) h = tt

module _ ⦃env : Env⦄ where
  -- the first well-formed frame
  pub first_of : List Bytes → Option LogPayload
  first_of [] = none
  first_of (raw ∷ frames) = or_entry (env.decode_log raw) (first_of frames)

  -- one of the frames decodes to the entry
  pub data IsCarried (entry : LogPayload) : List Bytes → Type 0 where
    here :
        {raw : Bytes} {frames : List Bytes}
        → env.decode_log raw ≡ ok entry
        → IsCarried entry (raw ∷ frames)
    there :
        {raw : Bytes} {frames : List Bytes}
        → IsCarried entry frames
        → IsCarried entry (raw ∷ frames)

  -- one of the frames decodes to the entry, and the first well-formed frame names a node whose token
  -- the upgrade request carries
  pub record IsRelayed (h : History) (s : Server) (auth : Bytes) (frames : List Bytes)
      (is_error : Bool) (entry : LogPayload) : Type 0 where
    pub carried : IsCarried entry frames
    pub first : LogPayload
    pub first_is : first_of frames ≡ some first
    pub authentic : IsAuthentic h s auth first.node

  abbrev Relays : (Bool → LogPayload → Type 0) → {A : Type 0} → M A → World → Type 0
  Relays L m w = Extends (Guarded (λ _ _ _. ⊥) (λ _ _. ⊥) ⊥ L) w.history (m w).1.history

  authenticate_node-Relays :
      (L : Bool → LogPayload → Type 0) (s : Server) (auth : Bytes) (answer : Result McuNode)
      (w : World)
      → Relays L (authenticate_node s auth answer) w
  unfolding authenticate_node
  authenticate_node-Relays L s auth (err e) w = same
  authenticate_node-Relays L s auth (ok node) w =
      (validate_token-Keeps (λ _ _ _. ⊥) (λ _ _. ⊥) ⊥ L s auth node).at w

  authenticate-Relays :
      (L : Bool → LogPayload → Type 0) (s : Server) (auth : Bytes) (entry : LogPayload) (w : World)
      → Relays L (authenticate s auth entry) w
  unfolding authenticate find_node
  authenticate-Relays L s auth entry w = Extends-trans (more tt same) (
      Extends-trans ((among_listed-Keeps (λ _ _ _. ⊥) (λ _ _. ⊥) ⊥ L s entry.node _).at _)
        (authenticate_node-Relays L s auth _ _))

  module _ (s : Server) (auth : Bytes) (entry : LogPayload) (w : World) where
    of_found :
        (nodes : List McuNode)
        → env.list_nodes w.history none ≡ ok nodes
        → (found : List McuNode) → matches entry.node nodes ≡ found
        → let w' = record w { history = nodes_listed none ∷ w.history } in
          let out = among s entry.node found w' in
          (authenticate_node s auth out.0 out.1).0 ≡ true → IsAuthentic w.history s auth entry.node
    unfolding authenticate_node among
    of_found nodes listed [] e h = absurd (cc)
    of_found nodes listed (n ∷ []) e h =
        (validate_token-IsAuthentic s auth entry.node w.history w.prev_labels nodes n listed e
          (is_match-Accepts _ h)).0
    of_found nodes listed (n ∷ m ∷ rest) e h = absurd (cc)

    of_answer :
        (answer : Result (List McuNode))
        → env.list_nodes w.history none ≡ answer
        → let w' = record w { history = nodes_listed none ∷ w.history } in
          let out = among_listed s entry.node answer w' in
          (authenticate_node s auth out.0 out.1).0 ≡ true → IsAuthentic w.history s auth entry.node
    unfolding authenticate_node among_listed
    of_answer (err e) listed h = absurd (cc)
    of_answer (ok nodes) listed h = of_found nodes listed (matches entry.node nodes) refl h

    authenticate-IsAuthentic :
        (authenticate s auth entry w).0 ≡ true → IsAuthentic w.history s auth entry.node
    unfolding authenticate find_node
    authenticate-IsAuthentic h = of_answer (env.list_nodes w.history none) refl h

  module _ (s : Server) (auth : Bytes) (L : Bool → LogPayload → Type 0) where
    -- the policy allows every entry of the frames to be relayed
    abbrev AllowsEntries : List Bytes → Type 0
    AllowsEntries frames =
        (entry : LogPayload) → IsCarried entry frames → (is_error : Bool) → L is_error entry

    authenticated-Relays :
        (frames : List Bytes) (w : World)
        → AllowsEntries frames
        → Relays L (read_frames s auth true frames) w
    unfolding read_frames frame log_entry
    authenticated-Relays [] w k = same
    authenticated-Relays (raw ∷ frames) w k =
        go (env.decode_log raw) refl (λ w k. authenticated-Relays frames w k)
      where
        go :
            (answer : Result LogPayload)
            → env.decode_log raw ≡ answer
            → ((w : World) → AllowsEntries frames → Relays L (read_frames s auth true frames) w)
            → Relays L (frame s auth true answer (λ b. read_frames s auth b frames)) w
        go (err e) is later = later w (λ entry c. k entry (there c))
        go (ok entry) is later =
            Extends-trans (more (k entry (here is) _) same) (later _ (λ entry c. k entry (there c)))

    first_entry-Relays :
        (raw : Bytes) (frames : List Bytes) (entry : LogPayload) (is_authentic : Bool) (w : World)
        → env.decode_log raw ≡ ok entry
        → (is_authentic ≡ true → AllowsEntries (raw ∷ frames))
        → Relays L (first_entry entry is_authentic (λ b. read_frames s auth b frames)) w
    unfolding first_entry log_entry
    first_entry-Relays raw frames entry false w is k = same
    first_entry-Relays raw frames entry true w is k =
        Extends-trans (more (k refl entry (here is) _) same)
          (authenticated-Relays frames _ (λ entry c. k refl entry (there c)))

    unauthenticated-Relays :
        (frames : List Bytes) (w : World)
        → ((first : LogPayload)
            → first_of frames ≡ some first
            → IsAuthentic w.history s auth first.node
            → AllowsEntries frames)
        → Relays L (read_frames s auth false frames) w
    unfolding read_frames frame first_of
    unauthenticated-Relays [] w k = same
    unauthenticated-Relays (raw ∷ frames) w k =
        go (env.decode_log raw) refl (λ k. unauthenticated-Relays frames w k)
      where
        go :
            (answer : Result LogPayload)
            → env.decode_log raw ≡ answer
            → (((first : LogPayload)
                  → first_of frames ≡ some first
                  → IsAuthentic w.history s auth first.node
                  → AllowsEntries frames)
                → Relays L (read_frames s auth false frames) w)
            → Relays L (frame s auth false answer (λ b. read_frames s auth b frames)) w
        go (err e) is later = later (λ first f a entry c.
            k first (ap (λ r. or_entry r (first_of frames)) is ∙ f) a entry (there c))
        go (ok entry) is later = Extends-trans (authenticate-Relays L s auth entry w) (
            first_entry-Relays raw frames entry _ _ is (λ yes.
              k entry (ap (λ r. or_entry r (first_of frames)) is)
                (authenticate-IsAuthentic s auth entry w yes)))

  -- A WebSocket connection makes the server write nothing to Kubernetes and no gauge, and relay only
  -- entries that a frame of the connection decodes to; and it relays any only if the first frame
  -- that decodes names a node whose token the upgrade request carries.
  pub handle_log_ws-IsRelayed :
      (s : Server) (r : IncomingRequest) (frames : List Bytes) (w : World)
      → Extends
          (Guarded
            (λ lock old new. ⊥)
            (λ old new. ⊥)
            ⊥
            (IsRelayed w.history s r.authorization frames))
          w.history
          (handle_log_ws s r (upgraded frames) w).1.history
  unfolding handle_log_ws
  handle_log_ws-IsRelayed s r frames w =
      unauthenticated-Relays s r.authorization (IsRelayed w.history s r.authorization frames) frames
        w
        (λ first is authentic entry carried is_error. record {
          carried = carried;
          first = first;
          first_is = is;
          authentic = authentic;
        })
