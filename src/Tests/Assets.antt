-- ===== src/Tests/Assets.antt =====
-- The robots and setups of saas/backend/app/store.py at concrete inputs.
use nebius_serverless_challe.Prelude.{◌≡◌, false, none, arith}
use nebius_serverless_challe.Store.Database.{Database}
use nebius_serverless_challe.Store.Robots.{create_robot, get_robot, get_robot_content, delete_robot}
use nebius_serverless_challe.Store.Robots.Lifecycle.{IsRobotTable}
use nebius_serverless_challe.Store.Robots.Visibility.{get_robot-delete_robot}
use nebius_serverless_challe.Store.Setups.{create_setup}
use nebius_serverless_challe.Store.Setups.Lifecycle.{IsSetupTable}
use nebius_serverless_challe.Tests.Samples.{no_data, alice, robot_of, setup_of}

abbrev uploaded : Database
unfolding create_robot
uploaded = (create_robot (robot_of 50) 500 no_data).1

no_robots-IsRobotTable : IsRobotTable no_data.robot_assets
no_robots-IsRobotTable = record {
  primary_key = λ i. omega arith;
  single = λ t y d. omega arith;
  bounded = λ t. omega arith;
}

get_robot-delete_robot_example :
    (get_robot alice 50 (delete_robot alice 50 3000 uploaded).1 ≡ none)
    × (get_robot_content alice 50 false (delete_robot alice 50 3000 uploaded).1 ≡ none)
get_robot-delete_robot_example = get_robot-delete_robot alice 50 alice 50 3000 uploaded

abbrev saved : Database
unfolding create_setup
saved = (create_setup (setup_of 60) no_data).1

no_setups-IsSetupTable : IsSetupTable no_data.robot_setups
no_setups-IsSetupTable = record {
  primary_key = λ i. omega arith;
  single = λ t d. omega arith;
  bounded = λ t. omega arith;
}
