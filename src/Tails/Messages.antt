-- ===== src/Tails/Messages.antt =====
-- internal/sandbox/stderr.go, `combineMessages`: the messages are told apart again by line ends.
use demesne.Base.{
  All, ◌≡◌, ◌∙◌, ap, none, List, [], ◌∷◌, Str, index_byte, split_on, split_on-part, split_on-last,
}
use demesne.Tails.{combine_messages}

-- Messages without line ends, at least one, are found again by splitting what they are combined to.
pub split_on-combine_messages :
    (m : Str) (ms : List Str)
    → All (λ t. index_byte 10 t ≡ none) (m ∷ ms)
    → split_on 10 [] (combine_messages (m ∷ ms)) ≡ m ∷ ms
unfolding combine_messages
split_on-combine_messages m [] h = split_on-last 10 [] m h.0
split_on-combine_messages m (n ∷ ms) h =
    split_on-part 10 [] m (combine_messages (n ∷ ms)) h.0
    ∙ ap (λ x. m ∷ x) (split_on-combine_messages n ms h.1)
