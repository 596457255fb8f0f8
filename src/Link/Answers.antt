-- ===== src/Link/Answers.antt =====
-- A call from the log of the servers to its caller: what the server of a client sends when it applies
-- the command of a call, and what the client answers when that has arrived.
use mathlib.Core.Option.{some-injective}
use id2203_project.Base.{
  ℕ, suc, ◌<◌, id_key, String, ◌≡◌, refl, sym, ap, subst, ◌∙◌, true, Option, some, List, [], ◌∷◌,
  ◌++◌, All, arith, ◌==◌, ◌&&◌, inl, inr, Bool-cases, word_mod,
}
use id2203_project.Common.Kv.{Command}
use id2203_project.Common.Messages.{ServerMessage, append, write, read, start_signal}
use id2203_project.Common.Spec.{Store, apply, respond, replay}
use id2203_project.Common.Framing.{
  Formats, TcpStream, FramedWrite, concat, items, frame_clients_connection,
  frame_servers_connection,
}
use id2203_project.Common.Framing.Ends.{ReadsBack, feed_all, append-injective}
use id2203_project.Common.Tasks.{WireFaults}
use id2203_project.Server.Database.{Json}
use id2203_project.Server.Network.{ClientConnection}
use id2203_project.Server.Network.Clients.{client}
use id2203_project.Server.Node.{OmniPaxos, Server, Host}
use id2203_project.Server.Node.Handlers.{Event}
use id2203_project.Server.Node.Agreement.{Agreement}
use id2203_project.Server.Node.Invariant.{IsConsistent}
use id2203_project.Server.Node.Answers.{replies, with_sent}
use id2203_project.Server.Node.Told.{answers_of, between}
use id2203_project.Server.Node.Told.Rounds.{IsApart, main_loop-answers}
use id2203_project.Server.Node.Rounds.{IsGenuineEvent}
use id2203_project.Server.Node.Program.{main_loop}
use id2203_project.Server.Database.Recovery.{JsonLaws}
use id2203_project.Server.Connections.{client_writer}
use id2203_project.Client.Connections.{reader}
use id2203_project.Client.Network.{slot}
use id2203_project.Client.Network.Slots.{is_open}
use id2203_project.Client.ShimClient.{Client, ApiCommand, handle_call}
use id2203_project.Client.ShimClient.Soundness.{IsSound, IsGenuine, handle_call-Gains}
use id2203_project.Client.ShimClient.Waiting.{caller, command_of, text_of, handle_call-Waits}
use id2203_project.Client.ShimClient.Matching.{IsOther, Keeps, Keeps-Waits}
use id2203_project.Client.ShimClient.Receiving.{receive_each, receive_each-answers}
use id2203_project.Link.Requests.{proposal}
use id2203_project.Link.Delivery.{fresh_wire, open_inbox, replies_arrive}

-- The messages of a server's writer arrive: no call fails, and the frames come as they were written.
pub record Arrive {Frame Message : Type 0} (formats : Formats Frame Message)
    (batches : List (List ServerMessage)) (chunks : List (List (Option ServerMessage)))
    : Type 0 where
  pub faults : WireFaults ServerMessage
  pub here : TcpStream Frame
  pub there : TcpStream Frame
  pub writer : FramedWrite Frame ServerMessage
  pub succeeds : (client_writer faults batches fresh_wire).1 ≡ true
  pub written :
      feed_all
        (frame_servers_connection formats here).1
        (client_writer faults batches fresh_wire).0.fed
      ≡ some writer
  pub carried : here.outgoing ++ concat there.incoming ≡ writer.written
  pub ready : concat chunks ≡ items (frame_clients_connection formats there).0

-- The entry of a request of client `j` that server `id` proposed.
abbrev pub logged : ℕ → ℕ → ℕ → ApiCommand → Command
logged id j request cmd = proposal id j (append request (command_of cmd))

pub replies-logged :
    (id j request : ℕ) (cmd : ApiCommand) (f : Store) (prior later : List Command)
    → (after : List ServerMessage) × (replies id j f (prior ++ logged id j request cmd ∷ later)
        ≡ replies id j f prior ++ respond (replay f prior) request (command_of cmd) ∷ after)
replies-logged id j request cmd f [] later = (
  replies id j (apply f (command_of cmd)) later,
  ground (arith, id_key.decides id id, id_key.decides j j),
)
replies-logged id j request cmd f (e ∷ prior) later =
    let (after, same) = replies-logged id j request cmd (apply f e.kv_cmd) prior later in
    (
      after,
      elim (Bool-cases ((e.coordinator_id == id) && (e.client_id == j))) [
        | inl own ↦ rw own (ap (λ ms. respond f e.id e.kv_cmd ∷ ms) same)
        | inr other ↦ rw other same
      ],
    )

head-∷ : {A : Type 0} (x y : A) (xs ys : List A) → x ∷ xs ≡ y ∷ ys → x ≡ y
head-∷ x y xs ys e = ap (λ zs. elim zs [ [] ↦ x | z ∷ _ ↦ z ]) e

tail-∷ : {A : Type 0} (x y : A) (xs ys : List A) → x ∷ xs ≡ y ∷ ys → xs ≡ ys
tail-∷ x y xs ys e = ap (λ zs. elim zs [ [] ↦ xs | _ ∷ rest ↦ rest ]) e

-- Messages with an answer among them: the ones before it and after it.
abbrev SplitAt : List ServerMessage → ServerMessage → List ServerMessage → Type 0
SplitAt xs m ms =
    (before after : List ServerMessage) × (ms ≡ before ++ m ∷ after) × (answers_of before ≡ xs)

answer-SplitAt :
    (a m : ServerMessage) (ms xs ys : List ServerMessage)
    → ((zs : List ServerMessage) → answers_of (a ∷ zs) ≡ a ∷ answers_of zs)
    → ((zs : List ServerMessage) → answers_of ms ≡ zs ++ m ∷ ys → SplitAt zs m ms)
    → a ∷ answers_of ms ≡ xs ++ m ∷ ys
    → SplitAt xs m (a ∷ ms)
answer-SplitAt a m ms [] ys is_answer later e =
    ([], ms, ap (λ x. x ∷ ms) (head-∷ a m (answers_of ms) ys e), refl)
answer-SplitAt a m ms (x ∷ xs) ys is_answer later e =
    let same = head-∷ a x (answers_of ms) (xs ++ m ∷ ys) e in
    let (before, after, split, kept) = later xs (tail-∷ a x (answers_of ms) (xs ++ m ∷ ys) e) in
    (
      a ∷ before,
      after,
      ap (λ r. a ∷ r) split,
      is_answer before ∙ (ap (λ r. a ∷ r) kept ∙ ap (λ y. y ∷ xs) same),
    )

answers-split :
    (ms xs ys : List ServerMessage) (m : ServerMessage)
    → answers_of ms ≡ xs ++ m ∷ ys
    → SplitAt xs m ms
answers-split [] [] ys m e = absurd (ground (arith, e))
answers-split [] (x ∷ xs) ys m e = absurd (ground (arith, e))
answers-split (start_signal t ∷ ms) xs ys m e =
    let (before, after, split, kept) = answers-split ms xs ys m e in
    (start_signal t ∷ before, after, ap (λ r. start_signal t ∷ r) split, kept)
answers-split (write id ∷ ms) xs ys m e =
    answer-SplitAt (write id) m ms xs ys (λ zs. refl) (λ zs. answers-split ms zs ys m) e
answers-split (read id value ∷ ms) xs ys m e =
    answer-SplitAt (read id value) m ms xs ys (λ zs. refl) (λ zs. answers-split ms zs ys m) e

-- What holds of the answers and of start signals holds of all messages.
pub All-answers :
    (P : ServerMessage → Type 0) (ms : List ServerMessage)
    → ((t : ℕ) → P (start_signal t))
    → All P (answers_of ms)
    → All P ms
All-answers P [] signals all = tt
All-answers P (start_signal t ∷ ms) signals all = (signals t, All-answers P ms signals all)
All-answers P (write id ∷ ms) signals all = (all.0, All-answers P ms signals all.1)
All-answers P (read id value ∷ ms) signals all = (all.0, All-answers P ms signals all.1)

module _ {Ratio : Type 0} where
  -- A call whose answer is among the messages that its client takes is answered with the text of it:
  -- messages before it answer other requests, and all answer requests that were sent.
  pub caller_is_told :
      (c c' : Client Ratio) (cmd : ApiCommand) (f : Store) (ms prior later : List ServerMessage)
      (called arrived : ℕ)
      → answers_of ms ≡ prior ++ respond f c.next_request_id (command_of cmd) ∷ later
      → All (IsOther c.next_request_id) prior
      → All (λ msg. IsGenuine msg c') (answers_of ms)
      → IsSound c
      → suc c.next_request_id < word_mod
      → is_open (slot c.network c.active_server) ≡ true
      → Keeps c.next_request_id (handle_call c cmd called) c'
      → (c'' : Client Ratio) × (first rest : List (ℕ × String)) × (receive_each c' ms arrived
          ≡ some c'')
        × (c''.answered ≡ first ++ (caller cmd, text_of f cmd) ∷ rest)
  caller_is_told c c' cmd f ms prior later called arrived among others genuine sound room open_slot
        kept =
      let id = c.next_request_id in
      let m = respond f id (command_of cmd) in
      let (before, after, split, same) = answers-split ms prior later m among in
      let apart =
        All-answers (IsOther id) before (λ t. tt) (subst (All (IsOther id)) (sym same) others) in
      let all_genuine =
        subst (All (λ msg. IsGenuine msg c')) split
          (All-answers (λ msg. IsGenuine msg c') ms (λ t. tt) genuine) in
      let (c1_sound, w1) =
        Keeps-Waits cmd id kept (handle_call-Gains c cmd called sound room).0
          (handle_call-Waits c cmd called sound room open_slot) in
      let (c2, first, rest, e, found) =
        receive_each-answers c' cmd id f before after arrived c1_sound w1 apart all_genuine in
      (c2, first, rest, ap (λ ms. receive_each c' ms arrived) split ∙ e, found)

module _ {op : OmniPaxos} (json : Json) (blank : json.Contents) (ag : Agreement op)
    (laws : JsonLaws json) {Frame : Type 0} (formats : Formats Frame op.Message) where
  -- What a client's reader passes on of a run of its server's main loop.
  pub taken-main_loop :
      (s s' : Server op) (h h' : Host json.Contents) (counter counter' : ℕ)
      (events : List (Event op json blank)) (j : ℕ) (conn conn' : ClientConnection)
      (batches : List (List ServerMessage)) (chunks : List (List (Option ServerMessage)))
      → IsConsistent json blank ag s h
      → All (IsGenuineEvent json blank ag) events
      → All (IsApart json blank ag laws j) events
      → main_loop op json blank s h counter events ≡ some (s', h', counter')
      → client s.network j ≡ some conn
      → conn.outgoing_messages.receiver_alive ≡ true
      → client s'.network j ≡ some conn'
      → conn.outgoing_messages.sent ++ concat batches ≡ conn'.outgoing_messages.sent
      → ReadsBack formats.server
      → Arrive formats batches chunks
      → answers_of (reader chunks open_inbox).taken ≡ between json blank ag j s s'
  taken-main_loop s s' h h' counter counter' events j conn conn' batches chunks good genuine apart
        ran at_j up after_j sent back arrive =
      let (k, front, all) =
        replies_arrive formats back arrive.faults batches arrive.here arrive.there arrive.writer
          chunks arrive.written arrive.carried arrive.ready in
      let (ms, at_end, told) =
        main_loop-answers json blank ag laws j s s' h h' counter counter' events conn good genuine
          apart ran at_j up in
      let same : with_sent conn ms ≡ conn' =
        some-injective (with_sent conn ms) conn' (sym at_end ∙ after_j) in
      let given : concat batches ≡ ms =
        append-injective conn.outgoing_messages.sent (concat batches) ms
          (sent ∙ ap (λ (c : ClientConnection). c.outgoing_messages.sent) (sym same)) in
      ap answers_of (all arrive.succeeds ∙ given) ∙ told
