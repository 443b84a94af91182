-- ===== src/Correlation/Coverage.antt =====
-- Which connections the candidate buckets can miss.
use cirt_lens.Base.{
  ◌≤◌, String, ◌≡◌, refl, Bool, true, false, Option, none, some, List, ◌++◌, ◌==◌, arith, any,
  any-append, any_mono, eq_iff, meets,
}
use cirt_lens.Config.{Settings, seconds}
use cirt_lens.Events.{Event, get_device_id}
use cirt_lens.Correlation.Score.{time_gap, same_entity, addresses, entity_score, connection_score}
use cirt_lens.Correlation.Candidates.{
  Anchor, user_anchor, host_anchor, source_anchor, device_anchor, same_anchor, anchor_if, anchors,
  sorted_pair, candidate_pairs,
}
use cirt_lens.Correlation.Complete.{has_anchor, shares_anchor, candidate_pairs_complete}
use cirt_lens.Correlation.Pairs.{IsBefore, has_pair}

any_append_left {ℓ} :
    {A : Type ℓ} (p : A → Bool) (xs ys : List A) → any p xs ≡ true → any p (xs ++ ys) ≡ true
any_append_left p xs ys h = ground (arith, any-append p xs ys)

any_append_right {ℓ} :
    {A : Type ℓ} (p : A → Bool) (xs ys : List A) → any p ys ≡ true → any p (xs ++ ys) ≡ true
any_append_right p xs ys h = ground (arith, any-append p xs ys)

abbrev share : List Anchor → List Anchor → Bool
share xs ys = any (has_anchor xs) ys

share_left :
    (xs xs' ys ys' : List Anchor) → share xs ys ≡ true → share (xs ++ xs') (ys ++ ys') ≡ true
share_left xs xs' ys ys' h = any_append_left (has_anchor (xs ++ xs')) ys ys' (
    any_mono (has_anchor xs) (has_anchor (xs ++ xs'))
      (λ k. any_append_left (λ j. same_anchor j k) xs xs') ys h)

share_right :
    (xs xs' ys ys' : List Anchor) → share xs' ys' ≡ true → share (xs ++ xs') (ys ++ ys') ≡ true
share_right xs xs' ys ys' h = any_append_right (has_anchor (xs ++ xs')) ys ys' (
    any_mono (has_anchor xs') (has_anchor (xs ++ xs'))
      (λ k. any_append_right (λ j. same_anchor j k) xs xs') ys' h)

-- Anchors of one kind carry their texts.
abbrev Carries : (String → Anchor) → Type 0
Carries kind = (x y : String) → same_anchor (kind x) (kind y) ≡ (x == y)

share_kind :
    (kind : String → Anchor) (carries : Carries kind) (a b : Option String)
    → same_entity a b ≡ true
    → share (anchor_if kind a) (anchor_if kind b) ≡ true
share_kind kind carries none b h = cc
share_kind kind carries (some x) none h = ground arith
share_kind kind carries (some x) (some y) h =
    ground (arith, carries x y, eq_iff x y, eq_iff x "", eq_iff y "")

false_of_ne_true : (b : Bool) → (b ≡ true → ⊥) → b ≡ false
false_of_ne_true true h = absurd (h refl)
false_of_ne_true false h = refl

module _ (left right : Event) (apart : shares_anchor left right ≡ false) where
  -- A shared entity would give a common bucket.
  refute : shares_anchor left right ≡ true → ⊥
  refute h = cc

  users_differ : same_entity left.user right.user ≡ false
  unfolding anchors
  users_differ = false_of_ne_true _ (λ h. refute (
      share_left (anchor_if user_anchor left.user) _ (anchor_if user_anchor right.user) _
        (share_kind user_anchor (λ x y. refl) left.user right.user h)))

  hosts_differ : same_entity left.host right.host ≡ false
  unfolding anchors
  hosts_differ = false_of_ne_true _ (λ h. refute (
      share_right (anchor_if user_anchor left.user) _ (anchor_if user_anchor right.user) _ (
        share_left (anchor_if host_anchor left.host) _ (anchor_if host_anchor right.host) _
          (share_kind host_anchor (λ x y. refl) left.host right.host h))))

  sources_differ : same_entity left.source_ip right.source_ip ≡ false
  unfolding anchors
  sources_differ = false_of_ne_true _ (λ h. refute (
      share_right (anchor_if user_anchor left.user) _ (anchor_if user_anchor right.user) _ (
        share_right (anchor_if host_anchor left.host) _ (anchor_if host_anchor right.host) _ (
          share_left (anchor_if source_anchor left.source_ip) _
            (anchor_if source_anchor right.source_ip) _
            (share_kind source_anchor (λ x y. refl) left.source_ip right.source_ip h)))))

  devices_differ : same_entity (get_device_id left.content) (get_device_id right.content) ≡ false
  unfolding anchors
  devices_differ = false_of_ne_true _ (λ h. refute (
      share_right (anchor_if user_anchor left.user) _ (anchor_if user_anchor right.user) _ (
        share_right (anchor_if host_anchor left.host) _ (anchor_if host_anchor right.host) _ (
          share_right (anchor_if source_anchor left.source_ip) _
            (anchor_if source_anchor right.source_ip) _
            (share_left (anchor_if device_anchor (get_device_id left.content)) _
              (anchor_if device_anchor (get_device_id right.content)) _
              (share_kind device_anchor (λ x y. refl) (get_device_id left.content)
                (get_device_id right.content) h))))))

-- Two events without a common anchor.
connection_score_unshared :
    (s : Settings) (left right : Event)
    → shares_anchor left right ≡ false
    → (connection_score s left right ≤ 5)
      × (connection_score s left right ≡ 5
          → (meets (addresses left) (addresses right) ≡ true) × (time_gap left right ≤ seconds 900))
unfolding connection_score entity_score
connection_score_unshared s left right apart =
    rw
      (
        users_differ left right apart,
        hosts_differ left right apart,
        sources_differ left right apart,
        devices_differ left right apart,
      )
      (ground arith)

unshared :
    (events : List Event) (left right : Event)
    → IsBefore left right events
    → has_pair (sorted_pair left.id right.id) (candidate_pairs events) ≡ false
    → shares_anchor left right ≡ false
unshared events left right before h =
    false_of_ne_true (shares_anchor left right)
      (λ k. contradict (candidate_pairs_complete events left right before k))
  where
    contradict : has_pair (sorted_pair left.id right.id) (candidate_pairs events) ≡ true → ⊥
    contradict k = cc

-- Two events of a list whose pair is not among its candidate pairs score at most 5, and 5 only
-- through a common address within a quarter of an hour. So with an acceptance score of 6 or more
-- the candidate pairs miss no connection.
pub connection_score-apart :
    (s : Settings) (events : List Event) (left right : Event)
    → IsBefore left right events
    → has_pair (sorted_pair left.id right.id) (candidate_pairs events) ≡ false
    → (connection_score s left right ≤ 5)
      × (connection_score s left right ≡ 5
          → (meets (addresses left) (addresses right) ≡ true) × (time_gap left right ≤ seconds 900))
connection_score-apart s events left right before h =
    connection_score_unshared s left right (unshared events left right before h)
