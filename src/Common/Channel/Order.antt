-- ===== src/Common/Channel/Order.antt =====
-- comm_network/common/channel.h: what the clients of one channel see over any interleaving of
-- their calls.
use comm_network.Prelude.{
  ◌≡◌, refl, sym, ap, ◌∙◌, ◌↔◌, false, List, [], ◌∷◌, ◌++◌, append-nil, append_assoc, none, arith,
}
use comm_network.Common.Channel.{
  Channel, send, receive, drain, receive_many, close, Call, sends, receives, receives_many, closes,
  History, after_receive, after_receive_many, step, run,
}

module _ {ℓ} {A : Type ℓ} where
  drain_lem : (items q : List A) → drain items q ≡ (items ++ q, [])
  unfolding drain
  drain_lem items [] = λ i. (sym (append-nil items) i, [])
  drain_lem items (x ∷ q) =
      drain_lem (items ++ x ∷ []) q ∙ ap (λ l. (l, [])) (append_assoc items (x ∷ []) q)

  -- Nothing is lost, repeated or reordered.
  abbrev pub InOrder : History A → Type ℓ
  InOrder h = h.delivered ++ h.channel.queue ≡ h.accepted

  receive-InOrder :
      (h : History A) (q : List A)
      → h.channel.queue ≡ q
      → InOrder h
      → InOrder (after_receive h (receive h.channel))
  unfolding receive
  receive-InOrder h [] e p = ground arith
  receive-InOrder h (x ∷ q) e p = ground (arith, append_assoc h.delivered (x ∷ []) q)

  receive_many-InOrder :
      (h : History A) (q : List A)
      → h.channel.queue ≡ q
      → InOrder h
      → InOrder (after_receive_many h (receive_many h.channel []))
  unfolding receive_many
  receive_many-InOrder h [] e p = ground (arith, append-nil h.delivered)
  receive_many-InOrder h (x ∷ q) e p =
      ground (arith, drain_lem (x ∷ []) q, append-nil (h.delivered ++ x ∷ q))

  step-InOrder : (h : History A) (c : Call A) → InOrder h → InOrder (step h c)
  unfolding step send receive receive_many close
  step-InOrder h (sends item) p =
      ground (arith, append_assoc h.delivered h.channel.queue (item ∷ []))
  step-InOrder h receives p = receive-InOrder h h.channel.queue refl p
  step-InOrder h receives_many p = receive_many-InOrder h h.channel.queue refl p
  step-InOrder h closes p = p

  -- Whatever calls are made in whatever order, what the receivers have been given, followed by
  -- what is still queued, is what the accepted sends brought, in their order.
  pub run-InOrder : (h : History A) (cs : List (Call A)) → InOrder h → InOrder (run h cs)
  unfolding run
  run-InOrder h [] p = p
  run-InOrder h (c ∷ cs) p = run-InOrder (step h c) cs (step-InOrder h c p)

  -- A receiver waits exactly while the channel is open and empty.
  pub receive_blocks_iff :
      (c : Channel A) → (receive c ≡ none) ↔ ((c.queue ≡ []) × (c.is_closed ≡ false))
  unfolding receive
  receive_blocks_iff c = ground arith
