-- ===== src/Host.antt =====
-- `Host` of src/host.cpp: the lists of virtual environments that the SDK gives, the proxy of a
-- scalar, the scalars of the host, and what is pulled.
pub mod Laws
pub mod Scalars
use rmond_drs.Base.{
  ℕ, ◌+◌, ◌==◌, Bool, true, false, not, ◌&&◌, ◌||◌, if◌then◌else◌, List, [], ◌∷◌, ◌++◌, Option,
  none, some,
}
use rmond_drs.Oid.{Oid}
use rmond_drs.Asn.{Varbind}
use rmond_drs.Value.{Chain, named, count, empty}
use rmond_drs.Ve.{Types}

abbrev pub not_empty : List ℕ → Option (List ℕ)
not_empty [] = none
not_empty (c ∷ cs) = some (c ∷ cs)

-- `make`: the VEID of the environment that is made, or else its handle is freed; the type, and the
-- strings, are those that the SDK gives.
unfoldable pub make : Types → Option ℕ → List ℕ → List ℕ → Option (List ℕ)
make k none uuid ct_id = none
make k (some t) uuid ct_id =
    if t == k.vm then not_empty uuid else if t == k.ct then not_empty ct_id else none

-- A handle that is listed: its type and its strings.
pub record Listed : Type 0 where
  pub ve_type : Option ℕ
  pub uuid : List ℕ
  pub ct_id : List ℕ

abbrev pub make_listed : Types → Listed → Option (List ℕ)
make_listed k u = make k u.ve_type u.uuid u.ct_id

abbrev pub push : Option (List ℕ) → List (List ℕ) → List (List ℕ)
push none dst = dst
push (some x) dst = dst ++ x ∷ []

-- The loop of `Unit::list`; `none` is a parameter that cannot be read.
unfoldable pub list_params : Types → List (Option Listed) → List (List ℕ) → List (List ℕ) × Bool
unfolding make
list_params k [] dst = (dst, false)
list_params k (none ∷ us) dst = (dst, true)
list_params k (some u ∷ us) dst = list_params k us (push (make_listed k u) dst)

-- `Unit::list`, true on failure: whether the job is valid, its wait succeeds and it has a result, and
-- the parameters, if they can be counted.
unfoldable pub list :
    Types
    → Bool
    → Bool
    → Bool
    → Option (List (Option Listed))
    → List (List ℕ)
    → List (List ℕ) × Bool
unfolding list_params
list k job waited result none dst = (dst, true)
list k job waited result (some us) dst =
    if job && (waited && result) then list_params k us dst else (dst, true)

-- `Unit::find`, of the parameter, if it can be read.
unfoldable pub find : Types → Bool → Bool → Option Listed → Option (List ℕ)
unfolding make
find k waited result none = none
find k waited result (some u) = if waited && result then make_listed k u else none

-- `Proxy::snapshot`: `created` is whether the PDU is, and `answer` the varbinds that the agent answers,
-- where it does without an error. It is what the provider makes.
unfoldable pub snapshot : Oid → List Oid → Bool → Option Chain → Chain
unfolding named count
snapshot name metrix created answer =
    if not (empty metrix) && not (count name metrix)
    then []
    else if created
    then named name answer
    else []

-- `Scalar::Unit::handle`: each request, whether it is processed, and its varbind, which takes the
-- value.
unfoldable pub handle : Varbind → List (Bool × Varbind) → List (Bool × Varbind)
handle value [] = []
handle value ((processed, v) ∷ rs) = (processed, if processed then v else value) ∷ handle value rs

-- `Unit::pullUsage`: what the storages are refreshed with, of the results of `PrlSrv_GetStatistics` and
-- `PrlSrv_GetLicenseInfo`.
unfoldable pub pull_usage : Option ℕ → Option ℕ → List ℕ
pull_usage none none = []
pull_usage none (some l) = l ∷ []
pull_usage (some s) none = s ∷ []
pull_usage (some s) (some l) = s ∷ l ∷ []

-- `Unit::ves`: LOCAL_VES and LIMIT_VES.
unfoldable pub ves : ℕ → ℕ × ℕ
ves n = (n, 65535)
