-- ===== src/Topics/Distinct.antt =====
-- The topics of a drone are told apart, and the drones by their command topics.
use mathlib.Core.List.{append_cancel_left, append_cancel_right}
use ironsoft.Prelude.{
  ◌≡◌, refl, ◌≢◌, List, [], ◌∷◌, ◌++◌, map, append_assoc, All, arith, sym, subst, true, Bool, not,
  ◌&&◌,
}
use ironsoft.Text.{Text, lit, text_eq, eq_of_tests}
use ironsoft.Topics.{EkinoxTopics, make_topics}

abbrev pub AllDistinct : List Text → Type 0
AllDistinct [] = Unit
AllDistinct (x ∷ xs) = All (λ y. x ≢ y) xs × AllDistinct xs

-- Every topic that the service publishes on or subscribes to.
abbrev pub channels : EkinoxTopics → List Text
channels t = t.presence ∷ t.status ∷ t.heartbeat ∷ t.cmd ∷ t.ack ∷ t.cmd_legacy ∷ t.ack_legacy ∷ []

abbrev suffixes : List Text
suffixes =
    (lit "/ekinox" ++ lit "/presence")
    ∷ (lit "/ekinox" ++ lit "/status")
    ∷ (lit "/ekinox" ++ lit "/heartbeat")
    ∷ lit "/cmd"
    ∷ lit "/ack"
    ∷ (lit "/ekinox" ++ lit "/cmd")
    ∷ (lit "/ekinox" ++ lit "/ack")
    ∷ []

-- The same as a test, which runs on the suffixes.
all_ne : Text → List Text → Bool
all_ne x [] = true
all_ne x (y ∷ ys) = not (text_eq x y) && all_ne x ys

all_distinct : List Text → Bool
all_distinct [] = true
all_distinct (x ∷ xs) = all_ne x xs && all_distinct xs

all_ne_sound : (x : Text) (xs : List Text) → all_ne x xs ≡ true → All (λ y. x ≢ y) xs
unfolding all_ne
all_ne_sound x [] h = tt
all_ne_sound x (y ∷ ys) h = (eq_of_tests x y (ground arith), all_ne_sound x ys (ground arith))

all_distinct_sound : (xs : List Text) → all_distinct xs ≡ true → AllDistinct xs
unfolding all_distinct
all_distinct_sound [] h = tt
all_distinct_sound (x ∷ xs) h =
    (all_ne_sound x xs (ground arith), all_distinct_sound xs (ground arith))

suffixes-AllDistinct : AllDistinct suffixes
unfolding all_distinct all_ne lit text_eq
suffixes-AllDistinct = all_distinct_sound suffixes refl

All-map_ne :
    (root x : Text) (xs : List Text)
    → All (λ y. x ≢ y) xs
    → All (λ y. (root ++ x) ≢ y) (map (◌++◌ root) xs)
All-map_ne root x [] h = tt
All-map_ne root x (y ∷ ys) h = (λ e. h.0 (append_cancel_left root x y e), All-map_ne root x ys h.1)

AllDistinct-map : (root : Text) (xs : List Text) → AllDistinct xs → AllDistinct (map (◌++◌ root) xs)
AllDistinct-map root [] h = tt
AllDistinct-map root (x ∷ xs) h = (All-map_ne root x xs h.0, AllDistinct-map root xs h.1)

channels-map :
    (drone_id : Text)
    → channels (make_topics drone_id) ≡ map (◌++◌ (make_topics drone_id).root) suffixes
unfolding make_topics
channels-map drone_id = simp append_assoc

-- For every drone the seven topics are different from one another.
pub channels-AllDistinct : (drone_id : Text) → AllDistinct (channels (make_topics drone_id))
channels-AllDistinct drone_id =
    subst AllDistinct (sym (channels-map drone_id))
      (AllDistinct-map (make_topics drone_id).root suffixes suffixes-AllDistinct)

-- Drones with the same command topic are the same drone.
cmd-injective : (d e : Text) → (make_topics d).cmd ≡ (make_topics e).cmd → d ≡ e
unfolding make_topics
cmd-injective d e h =
    append_cancel_left (lit "ironsoft/uav/") d e (append_cancel_right _ _ (lit "/cmd") h)
