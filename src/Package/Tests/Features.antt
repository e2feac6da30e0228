-- ===== src/Package/Tests/Features.antt =====
-- The feature registry on a sample configuration.
use sonic_utility.Base.{some, ◌≡◌, refl, true}
use sonic_utility.Base.Dict.{lookup, IsUnique}
use sonic_utility.Package.ConfigDb.{Config, get_entry, persistent_connector}
use sonic_utility.Package.Feature.{register, deregister, update, is_feature_enabled, feature_table}
use sonic_utility.Package.Feature.Each.{Every, OnEach}
use sonic_utility.Package.Feature.Entries.{
  Registered, Deregistered, Updated, register-Registered, deregister-Deregistered, update-Updated,
}
use sonic_utility.Package.Feature.Upgrade.{Restored, update-update-Restored}
use sonic_utility.Package.Tests.Samples.{service, features}

configured_once : Every (λ (db : Config). IsUnique (get_entry feature_table "agent" db)) features
unfolding get_entry lookup
configured_once = record {
  initial = (refl, (refl, tt));
  persistent = tt;
  running = (refl, (refl, tt));
}

register-Registered_example :
    OnEach
      (Registered persistent_connector (service "agent") (some "enabled") (some "kube"))
      features
      (register persistent_connector (service "agent") (some "enabled") (some "kube") features)
register-Registered_example =
    register-Registered persistent_connector (service "agent") (some "enabled") (some "kube")
      features configured_once

deregister-Deregistered_example :
    OnEach
      (Deregistered persistent_connector "agent")
      features
      (deregister persistent_connector "agent" features)
deregister-Deregistered_example = deregister-Deregistered persistent_connector "agent" features

update-Updated_example :
    OnEach
      (Updated persistent_connector (service "agent") (service "agent2"))
      features
      (update persistent_connector (service "agent") (service "agent2") features)
update-Updated_example =
    update-Updated persistent_connector (service "agent") (service "agent2") features

agent_is_enabled : is_feature_enabled persistent_connector "agent" features ≡ true
unfolding is_feature_enabled get_entry
agent_is_enabled = refl

update-update-Restored_example : OnEach (Restored persistent_connector (service "agent")) features (
    update persistent_connector
      (service "agent2")
      (service "agent")
      (update persistent_connector (service "agent") (service "agent2") features))
update-update-Restored_example =
    update-update-Restored persistent_connector (service "agent") (service "agent2") features
