-- ===== src/Aggregators.antt =====
-- jubatus/server/framework/aggregators.hpp: the reducers of the proxies and of calls to many servers.
use jubatus.Base.{ℕ, ◌+◌, Bool, ◌&&◌, ◌||◌, List, [], ◌∷◌, ◌++◌}
use jubatus.Base.Assoc.{put}
use jubatus.Base.Text.{Text}

-- `ret[it->first] = it->second` for every entry of a map.
unfoldable pub assign_all : {V : Type 0} → List (Text × V) → List (Text × V) → List (Text × V)
assign_all ret [] = ret
assign_all ret (e ∷ m) = assign_all (put e.0 e.1 ret) m

unfoldable pub merge : {V : Type 0} → List (Text × V) → List (Text × V) → List (Text × V)
unfolding assign_all
merge lhs rhs = assign_all (assign_all [] lhs) rhs

pub concat : {T : Type 0} → List T → List T → List T
concat lhs rhs = lhs ++ rhs

pub pass : {T : Type 0} → T → T → T
pass lhs rhs = lhs

-- `T` is `int` in the one use; its values stay far below the bound of an `int`.
pub add : ℕ → ℕ → ℕ
add lhs rhs = lhs + rhs

abbrev pub all_and : Bool → Bool → Bool
all_and l r = l && r

abbrev pub all_or : Bool → Bool → Bool
all_or l r = l || r
