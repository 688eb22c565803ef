-- ===== src/PtzNode.antt =====
-- PTZNode of src/ServiceContext.h and src/ServiceContext.cpp: whether the camera can be moved, and
-- the shell commands that move it.
use onvif_srvd_cmake.Prelude.{Text, Option, none, some, Bool, true, false, [], bytes}

pub record PtzNode : Type 0 where
  pub enable : Bool
  pub move_left : Text
  pub move_right : Text
  pub move_up : Text
  pub move_down : Text
  pub move_stop : Text
  pub move_preset : Text
  pub str_err : Text

-- Everything but the error text.
unfoldable pub clear : PtzNode → PtzNode
clear n = record n {
  enable = false;
  move_left = [];
  move_right = [];
  move_up = [];
  move_down = [];
  move_stop = [];
  move_preset = [];
}

-- The constructor.
unfoldable pub new_ptz_node : PtzNode
unfolding clear
new_ptz_node = clear (record {
  enable = false;
  move_left = [];
  move_right = [];
  move_up = [];
  move_down = [];
  move_stop = [];
  move_preset = [];
  str_err = [];
})

-- set_str_value: the node with the error text, or the node that `store` makes of the value.
unfoldable pub set_str_value : Option Text → (Text → PtzNode) → PtzNode → PtzNode × Bool
set_str_value none store n = (record n { str_err = bytes "Process is empty" }, false)
set_str_value (some new_val) store n = (store new_val, true)

unfoldable pub set_move_left : Option Text → PtzNode → PtzNode × Bool
unfolding set_str_value
set_move_left v n = set_str_value v (λ s. record n { move_left = s }) n

unfoldable pub set_move_right : Option Text → PtzNode → PtzNode × Bool
unfolding set_str_value
set_move_right v n = set_str_value v (λ s. record n { move_right = s }) n

unfoldable pub set_move_up : Option Text → PtzNode → PtzNode × Bool
unfolding set_str_value
set_move_up v n = set_str_value v (λ s. record n { move_up = s }) n

unfoldable pub set_move_down : Option Text → PtzNode → PtzNode × Bool
unfolding set_str_value
set_move_down v n = set_str_value v (λ s. record n { move_down = s }) n

unfoldable pub set_move_stop : Option Text → PtzNode → PtzNode × Bool
unfolding set_str_value
set_move_stop v n = set_str_value v (λ s. record n { move_stop = s }) n

unfoldable pub set_move_preset : Option Text → PtzNode → PtzNode × Bool
unfolding set_str_value
set_move_preset v n = set_str_value v (λ s. record n { move_preset = s }) n
