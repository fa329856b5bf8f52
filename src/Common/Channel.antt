-- ===== src/Common/Channel.antt =====
-- comm_network/common/channel.h: `Channel<T>`, a queue under a mutex with a condition variable.
-- Every method holds the mutex from its first line to its last, so a method is one step. A call
-- of `Receive` or `ReceiveMany` whose wait does not end is `none`: nothing has changed, and the
-- thread tries again when it is woken.
pub mod Order
mod Tests
use comm_network.Prelude.{
  Bool, true, false, not, ◌||◌, List, [], ◌∷◌, ◌++◌, Option, none, some, is_empty, if◌then◌else◌,
}

pub data ChannelStatus : Type 0 where
  success error_closed : ChannelStatus

pub record Channel {ℓ} (A : Type ℓ) : Type ℓ where
  pub queue : List A
  pub is_closed : Bool

module _ {ℓ} {A : Type ℓ} where
  pub new : Channel A
  new = record { queue = []; is_closed = false }

  pub send : Channel A → A → ChannelStatus × Channel A
  send c item =
      if c.is_closed
      then (error_closed, c)
      else (success, record c { queue = c.queue ++ item ∷ [] })

  -- The predicate of both waits.
  can_receive : Channel A → Bool
  can_receive c = not (is_empty c.queue) || c.is_closed

  take_front : Channel A → List A → ChannelStatus × Option A × Channel A
  take_front c [] = (error_closed, none, c)
  take_front c (item ∷ rest) = (success, some item, record c { queue = rest })

  -- The middle part is what `*item` is given.
  pub receive : Channel A → Option (ChannelStatus × Option A × Channel A)
  unfolding can_receive take_front
  receive c = if can_receive c then some (take_front c c.queue) else none

  -- The loop of `ReceiveMany`, over the caller's queue and this one's.
  drain : List A → List A → List A × List A
  drain items [] = (items, [])
  drain items (front ∷ rest) = drain (items ++ front ∷ []) rest

  take_all : Channel A → List A → List A → ChannelStatus × List A × Channel A
  unfolding drain
  take_all c items [] = (error_closed, items, c)
  take_all c items (front ∷ rest) =
      let (items', queue') = drain items (front ∷ rest) in
      (success, items', record c { queue = queue' })

  pub receive_many : Channel A → List A → Option (ChannelStatus × List A × Channel A)
  unfolding can_receive take_all
  receive_many c items = if can_receive c then some (take_all c items c.queue) else none

  pub close : Channel A → Channel A
  close c = record c { is_closed = true }

pub data Call {ℓ} (A : Type ℓ) : Type ℓ where
  sends : A → Call A
  receives : Call A
  receives_many : Call A
  closes : Call A

-- A channel with what its calls have taken in and handed out so far, oldest first.
pub record History {ℓ} (A : Type ℓ) : Type ℓ where
  pub channel : Channel A
  pub accepted : List A
  pub delivered : List A

module _ {ℓ} {A : Type ℓ} where
  abbrev after_send : History A → A → ChannelStatus × Channel A → History A
  after_send h item (success, c) = record h { channel = c; accepted = h.accepted ++ item ∷ [] }
  after_send h item (error_closed, c) = record h { channel = c }

  abbrev after_receive : History A → Option (ChannelStatus × Option A × Channel A) → History A
  after_receive h none = h
  after_receive h (some (_, none, c)) = record h { channel = c }
  after_receive h (some (_, some item, c)) = record h {
    channel = c;
    delivered = h.delivered ++ item ∷ [];
  }

  -- The caller passes an empty queue here: what it gets is what it has afterwards.
  abbrev after_receive_many : History A → Option (ChannelStatus × List A × Channel A) → History A
  after_receive_many h none = h
  after_receive_many h (some (_, items, c)) = record h {
    channel = c;
    delivered = h.delivered ++ items;
  }

  pub step : History A → Call A → History A
  step h (sends item) = after_send h item (send h.channel item)
  step h receives = after_receive h (receive h.channel)
  step h receives_many = after_receive_many h (receive_many h.channel [])
  step h closes = record h { channel = close h.channel }

  pub run : History A → List (Call A) → History A
  run h [] = h
  run h (c ∷ cs) = run (step h c) cs

  pub start : History A
  unfolding new
  start = record { channel = new; accepted = []; delivered = [] }
