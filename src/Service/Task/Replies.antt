-- ===== src/Service/Task/Replies.antt =====
-- What tasks end with.
use bitsafe.Prelude.{ℕ, Option, Bool, true, false}
use bitsafe.Protocol.Response.{Response, Answer, RpcError, success, failure}
use bitsafe.Sdk.Act.Ends.{Outcome, Anything, Ends, ends_rules}
use bitsafe.Service.World.{World}
use bitsafe.Service.Task.{Task, Sys, critical, reading, writing, call, return_if}

-- A JSON-RPC reply: it has the id of the request, and a result or an error, not both.
pub data IsReply (id : Option ℕ) : Response → Type 0 where
  answered : (a : Answer) → IsReply id (success id a)
  refused : (e : RpcError) → IsReply id (failure id e)

module _ {C E A : Type 0} {L : E → Type 0} where
  pub Ends-critical_value :
      {V : A → Type 0} (f : World C → A × World C)
      → ((w : World C) → V (f w).0)
      → Ends L V (critical f)
  unfolding critical
  Ends-critical_value f h = record { from = λ s. h _ }

  pub Ends-critical : (f : World C → A × World C) → Ends L Anything (critical f)
  Ends-critical f = Ends-critical_value f (λ w. tt)

  pub Ends-reading : (f : World C → A) → Ends L Anything (reading f)
  unfolding reading
  Ends-reading f = Ends-critical (λ w. (f w, w))

  pub Ends-reading_value :
      {V : A → Type 0} (f : World C → A) → ((w : World C) → V (f w)) → Ends L V (reading f)
  unfolding reading
  Ends-reading_value f h = Ends-critical_value (λ w. (f w, w)) h

  pub Ends-call : (m : Task C A A) → Ends L Anything (call m)
  unfolding call
  Ends-call m = record { from = λ s. tt }

module _ {C E : Type 0} {L : E → Type 0} where
  pub Ends-writing : (f : World C → World C) → Ends L Anything (writing f)
  unfolding writing
  Ends-writing f = Ends-critical (λ w. (tt, f w))

  pub Ends-return_if : (test : Bool) (e : E) → L e → Ends {S = Sys C} L Anything (return_if test e)
  unfolding return_if
  Ends-return_if true e left = record { from = λ s. left }
  Ends-return_if false e left = record { from = λ s. tt }

pub ruleset reply_rules = (
  ends_rules, Ends-critical, Ends-reading, Ends-call, Ends-writing, Ends-return_if,
  IsReply.answered, IsReply.refused,
)
