-- ===== src/Examples/Redirects/Laws.antt =====
-- What the outer loop of the example programs returns, and when it never does. In the programs its
-- state is the number of the round and the URL.
use io_http.Prelude.{ℕ, zero, suc, ◌≡◌, ◌↔◌, refl, ◌∙◌, ap}
use io_http.Coroutine.Drive.{Outcome, finished, crashed, unfinished}
use io_http.Rfc9110.Response.{HttpResponse}
use io_http.Examples.Redirects.{Ended, answered, moved, gave_up, followed, outer}

module _ {Url : Type 0} (visit : Url → Outcome (Ended Url)) where
  -- From `u` redirects lead to a URL that answers with `r`.
  pub data LeadsTo (r : HttpResponse) : Url → Type 0 where
    here : {u : Url} → visit u ≡ finished (answered r) → LeadsTo r u
    hop : {u v : Url} → visit u ≡ finished (moved v) → LeadsTo r v → LeadsTo r u

  LeadsTo-outer :
      {r : HttpResponse} {u : Url} → LeadsTo r u → (hops : ℕ) × (outer visit hops u ≡ finished r)
  unfolding outer followed
  LeadsTo-outer {r} (here {u} e) = (1, rw e)
  LeadsTo-outer {r} (hop {u} {v} e l) = let (hops, h) = LeadsTo-outer l in (suc hops, rw e h)

  followed-LeadsTo :
      (o : Outcome (Ended Url)) (u : Url) (r : HttpResponse) (rest : Url → Outcome HttpResponse)
      → visit u ≡ o
      → ((v : Url) → rest v ≡ finished r → LeadsTo r v)
      → followed o rest ≡ finished r
      → LeadsTo r u
  unfolding followed
  followed-LeadsTo (finished (answered response)) u r rest e ih h =
      let same : response ≡ r = cc in here (e ∙ ap (λ x. finished (answered x)) same)
  followed-LeadsTo (finished (moved v)) u r rest e ih h = hop e (ih v h)
  followed-LeadsTo (finished gave_up) u r rest e ih h = cc
  followed-LeadsTo crashed u r rest e ih h = cc
  followed-LeadsTo unfinished u r rest e ih h = cc

  outer-LeadsTo :
      (hops : ℕ) (u : Url) (r : HttpResponse) → outer visit hops u ≡ finished r → LeadsTo r u
  unfolding outer
  outer-LeadsTo zero u r h = cc
  outer-LeadsTo (suc hops) u r h =
      followed-LeadsTo (visit u) u r (outer visit hops) refl (λ v. outer-LeadsTo hops v r) h

  -- The outer loop of the example programs returns a response, after some number of requests,
  -- exactly if redirects lead from the URL to one that answers with it.
  pub outer_iff :
      (u : Url) (r : HttpResponse) → ((hops : ℕ) × (outer visit hops u ≡ finished r)) ↔ LeadsTo r u
  outer_iff u r = (λ (hops, h). outer-LeadsTo hops u r h, LeadsTo-outer)

  -- Where each URL of a set redirects to one of the set, the outer loop that starts in it never comes
  -- to an end, whatever the number of requests: it has no limit.
  pub outer_endless :
      (InCycle : Url → Type 0)
      → ((u : Url) → InCycle u → (v : Url) × InCycle v × (visit u ≡ finished (moved v)))
      → (hops : ℕ) (u : Url) → InCycle u
      → outer visit hops u ≡ unfinished
  unfolding outer followed
  outer_endless InCycle next zero u c = refl
  outer_endless InCycle next (suc hops) u c =
      let (v, d, e) = next u c in rw e (outer_endless InCycle next hops v d)
