-- ===== src/Http/Attempts/Counts.antt =====
-- How many clients the attempts dial, and how often they call Close on one.
use deskaone_sdk.Shared.{ℕ, suc, ◌+◌, ◌*◌, ◌≤◌, ◌≡◌}
use deskaone_sdk.Shared.{List, ◌++◌, All}
use deskaone_sdk.Tcp.{TcpClient}
use deskaone_sdk.Shared.{length}
use deskaone_sdk.Shared.{Option, none, some, Result, ok, err}
use deskaone_sdk.Shared.Int.{pos_part}
use deskaone_sdk.Http.{HttpError}
use deskaone_sdk.Http.Exchange.{HttpClient, Outside}
use deskaone_sdk.Http.Client.{Network}
use deskaone_sdk.Http.Client.Closing.{Shut}
use deskaone_sdk.Http.Attempts.{rounds_up_to}

-- Behind a call, Close was called as often as a client was dialled since `net`, but for `n` that the
-- caller holds; those that it was called on, `new`, are shut; at most `most` were dialled.
pub record Counts {W : Type 0} (net : Network W) (n most : ℕ) (next : Network W) : Type 0 where
  pub new : List TcpClient
  pub added : next.given_up ≡ net.given_up ++ new
  pub shut : All Shut new
  pub balanced : length new + n + net.dialled ≡ next.dialled
  pub within : next.dialled ≤ net.dialled + most

-- Networks that do not differ in their connections.
record SameCounts {W : Type 0} (net next : Network W) : Type 0 where
  given_up : next.given_up ≡ net.given_up
  dialled : next.dialled ≡ net.dialled

-- The connections that a result holds, each response `each` of them.
abbrev pub held_by : {A : Type 0} → ℕ → Result HttpError A → ℕ
held_by each (ok a) = each
held_by each (err e) = 0

abbrev pub held_option : {A : Type 0} → ℕ → Result HttpError (Option A) → ℕ
held_option each (ok none) = 0
held_option each (ok (some a)) = each
held_option each (err e) = 0

module _ {W D : Type 0} (o : Outside W D) (sizes : ℕ → ℕ) (rounds : ℕ) where
  -- The most connections that a call dials: a round of redirects for each attempt.
  abbrev pub most_dialled : HttpClient → ℕ
  most_dialled c = rounds_up_to c.max_retries * suc (pos_part c.max_redirects)
