-- ===== src/LocalTimeout.antt =====
-- local_timeout/local_timeout.go: the height that a replica works on, and the channel that tells
-- its timer of new ones. The mutex makes each call atomic; the channel is the list of what was sent.
pub mod Rising
use banyan.Base.{List, [], ◌∷◌, ◌++◌, if◌then◌else◌, Word, sle}

pub record LocalTimeout : Type 0 where
  pub cur_height : Word
  pub new_height_chan : List Word

unfoldable pub new_local_timeout : LocalTimeout
new_local_timeout = record { cur_height = 1; new_height_chan = [] }

unfoldable pub height_increased : LocalTimeout → Word → LocalTimeout
height_increased lt height =
    if sle height lt.cur_height
    then lt
    else record { cur_height = height; new_height_chan = lt.new_height_chan ++ height ∷ [] }

unfoldable pub get_new_height : LocalTimeout → List Word
get_new_height lt = lt.new_height_chan
