-- ===== src/Topics.antt =====
-- services/ekinox/include/ironsoft/ekinox/ekinox_topics.h: the MQTT topics of one drone.
pub mod Distinct
use ironsoft.Prelude.{◌++◌}
use ironsoft.Text.{Text, lit}

pub record EkinoxTopics : Type 0 where
  pub root : Text
  pub prefix : Text
  pub presence : Text
  pub status : Text
  pub heartbeat : Text
  pub cmd : Text
  pub ack : Text
  pub cmd_legacy : Text
  pub ack_legacy : Text

unfoldable pub make_topics : Text → EkinoxTopics
make_topics drone_id =
    let root = lit "ironsoft/uav/" ++ drone_id in
    let prefix = root ++ lit "/ekinox" in
    record {
      root = root;
      prefix = prefix;
      presence = prefix ++ lit "/presence";
      status = prefix ++ lit "/status";
      heartbeat = prefix ++ lit "/heartbeat";
      cmd = root ++ lit "/cmd";
      ack = root ++ lit "/ack";
      cmd_legacy = prefix ++ lit "/cmd";
      ack_legacy = prefix ++ lit "/ack";
    }
