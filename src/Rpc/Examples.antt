-- ===== src/Rpc/Examples.antt =====
-- A primary provider that is down, and a fallback that answers.
use fbyt.Base.{ℕ, ◌≡◌, ◌<◌, ◌⊎◌, refl, Text, text_eq, some, List, [], ◌∷◌, codes, if◌then◌else◌}
use fbyt.Nav.Ledger.{threw, got}
use fbyt.Rpc.Transport.{Network, urls_of, pick, call_attempt, retry, resilient, server_rpc}
use fbyt.Rpc.Live.{before, Fails, Answers, resilient_first, server_rpc_live}

-- The world is the URLs that were called.
abbrev network : Network ℕ
network = record {
  World = List Text;
  call = λ url w. (url ∷ w, if text_eq url (codes "b") then got 7 else threw);
  sleep = λ n w. w;
}

fails_over :
    server_rpc network (codes "a") (some (codes "b")) [] ≡ (codes "b" ∷ codes "a" ∷ [], got 7)
unfolding server_rpc resilient retry call_attempt pick urls_of text_eq
fails_over = refl

resilient_first_example :
    let urls = codes "a" ∷ codes "b" ∷ [] in
    ((i : ℕ) × (a : ℕ) × (i < 3)
      × ((j : ℕ) → j < i → Fails network urls [] j)
      × Answers network urls [] i a
      × (resilient network urls []
          ≡ ((call_attempt network urls i (before network urls i [])).0, got a)))
    ⊎ (((j : ℕ) → j < 3 → Fails network urls [] j)
        × (resilient network urls [] ≡ (before network urls 3 [], threw)))
resilient_first_example = resilient_first network (codes "a" ∷ codes "b" ∷ []) []

fallback_answers : (v : List Text) → (a : ℕ) × ((network.call (codes "b") v).1 ≡ got a)
unfolding text_eq
fallback_answers v = (7, refl)

server_rpc_live_example :
    (a : ℕ) × ((server_rpc network (codes "a") (some (codes "b")) []).1 ≡ got a)
server_rpc_live_example = server_rpc_live network (codes "a") b'b' [] [] fallback_answers
