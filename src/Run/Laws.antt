-- ===== src/Run/Laws.antt =====
-- What went before a result.
use nl.Base.{none, some, ◌≡◌, refl}
use nl.Netlink.{ok, err}
use nl.Run.{Run, done, ◌>>=◌}

-- If a run and what follows it are done, the run is done before.
pub >>=-eq-done :
    {S T : Type 0} {out : T} (run : Run S) (after : S → Run T)
    → (run >>= after) ≡ done out
    → (s : S) × (run ≡ done s) × (after s ≡ done out)
>>=-eq-done none after is = cc
>>=-eq-done (some (err code)) after is = cc
>>=-eq-done (some (ok s)) after is = (s, refl, is)
