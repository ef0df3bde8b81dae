-- ===== src/Queue/Contracts.antt =====
-- queue/base.py: what a queue adapter declares that it can do, and the message that it carries.
use hydra_mind.Prelude.{ℕ, String, Bool, true, false, ◌||◌, List, [], ◌∷◌, all}
use hydra_mind.Prelude.Dict.{Payload}

pub data QueueCapability : Type 0 where
  enqueue dequeue ack nack pending close : QueueCapability

-- A frozen set of features, as the list of its members.
pub record QueueCapabilities : Type 0 where
  pub features : List QueueCapability

unfoldable pub same_capability : QueueCapability → QueueCapability → Bool
same_capability enqueue enqueue = true
same_capability dequeue dequeue = true
same_capability ack ack = true
same_capability nack nack = true
same_capability pending pending = true
same_capability close close = true
same_capability _ _ = false

-- feature in features
unfoldable pub has_feature : QueueCapability → List QueueCapability → Bool
unfolding same_capability
has_feature f [] = false
has_feature f (g ∷ gs) = same_capability g f || has_feature f gs

abbrev pub pollable_delivery_features : List QueueCapability
pollable_delivery_features =
    QueueCapability.dequeue ∷ QueueCapability.ack ∷ QueueCapability.nack ∷ []

abbrev pub enqueue_only : QueueCapabilities
enqueue_only = record {
  features = QueueCapability.enqueue ∷ QueueCapability.pending ∷ QueueCapability.close ∷ [];
}

abbrev pub pollable_delivery : QueueCapabilities
pollable_delivery = record {
  features =
      QueueCapability.enqueue ∷ QueueCapability.dequeue ∷ QueueCapability.ack ∷ QueueCapability.nack
      ∷ QueueCapability.pending ∷ QueueCapability.close ∷ [];
}

unfoldable pub supports : QueueCapabilities → List QueueCapability → Bool
unfolding has_feature
supports c features = all (λ f. has_feature f c.features) features

unfoldable pub supports_pollable_delivery : QueueCapabilities → Bool
unfolding has_feature
supports_pollable_delivery c = all (λ f. has_feature f c.features) pollable_delivery_features

pub record QueueMessage : Type 0 where
  pub session_id : String
  pub enqueued_at : ℕ
  pub attempt : ℕ
  pub metadata : Payload
  pub handle : String
