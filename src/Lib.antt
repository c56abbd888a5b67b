-- ===== src/Lib.antt =====
-- The management panel of the platform: management-panel/src/main/web/src, to whose folders the
-- paths of all comments are relative. The panel shows the projects, assemblies and modules of a
-- platform, edits their configurations, validates them and asks the platform to install, update and
-- clone modules.
--
-- The parts of the program and the files that model them:
-- framework/extensions/extensions.ts, the methods added to Array, Map and Set: Extensions. A map
--   is the list of its entries in the order of insertion, a set the list of its elements. A method
--   that mutates its receiver and returns it gives both.
-- framework/pattern: Pattern. Stream.ts is Pattern/Stream, Synchronizer.ts Pattern/Synchronizer,
--   Property.ts Pattern/Property, Conditional.ts and Optional.ts Pattern/Conditional,
--   Configurable.ts and Trigger.ts Pattern/Configurable, HookContainer.ts Pattern/Hooks, Lazy.ts and
--   ArrayCache.ts Pattern/Caches. A method that changes its object is a function from the state to
--   the state. Handlers, actions and consumers are values of any type; that they are called is what
--   an operation puts out, in order.
-- model and the constants of states: Model.
-- service and constants/ModuleStateConstants.ts: Service. The services for modules call the
--   platform and go on in callbacks. The variables that the closures share are a record
--   (Installation, Updating, Cloning), a callback is a case of `answer`, and the answers of the
--   platform are a list of events; `run` gives the calls of one installation or update, at first and
--   at each answer.
-- loader: Loader. A load empties the lists; its callbacks are `receive`. A store shares an object
--   with the loader that made it, which both know by its number.
-- validator: Validator. The rules are stated on the data, beside the code.
-- framework/dsl/managed/ManagedCollection.tsx: Widget/Collection, the items of a collection, the
--   validation of each against the others, and what it disables. The properties are those of
--   Pattern/Property; what the widgets say of themselves is given at each validation.
-- The other managed widgets: Widget. ManagedFileLoader.tsx is Widget/Files, ManagedSelector.tsx
--   Widget/Selector, ManagedSearcher.tsx Widget/Searcher, ManagedGrid.tsx Widget/Grid and
--   ManagedTextField.tsx Widget/TextField. Where two properties assign each other, an assignment
--   runs on fuel: 4 assignments inside each other are enough for a selector, 4 or 6 for a searcher.
-- client/PlatformClient.ts: Client. What the socket tells the client comes as events, what the
--   client asks of it is put out.
-- context/PlatformContext.ts: Context, with the synchronizer of Pattern/Synchronizer; an answer of
--   a load is an event.
-- component/stream/StreamsActivator.tsx and streams/ModuleStream.ts: Events.
-- component/embeddable/module/ModuleCard.tsx and component/embeddable/assembly/AssemblyCard.tsx:
--   Card. component/pages/module/ModulesPage.tsx: Page/Modules and Page/Filtering;
--   component/pages/registration/RegistrationPage.ts: Page/Registration;
--   component/embeddable/filter/Filter.ts: Page/Filter.
-- Common has what these share, Tests concrete inputs.
--
-- How the parts interact: the validators use `hasDuplicates` of the extensions and the name that
-- service/ModuleService.ts makes; the services use its types of calls and the data model; the
-- streams keep their subscribers in a map of the extensions; a context runs the synchronizer, the
-- events end in the streams, a page keeps its cards in a grid, and the cards read the states of
-- modules that the services define.
--
-- Numbers are natural numbers, an absent value is `none`, and deep equality (the package
-- fast-deep-equal) and `==` are the interface `DeepEqual`. `chunks` runs on fuel, one more than the
-- length of the array, which a positive size never uses up; with the size 0 the code does not end.
-- The other loops are structural. Regular expressions are parameters of the validators and of the
-- fields, and the hash of an array (the package hash-sum) one of its cache.
--
-- Not modelled: rendering, the widgets that only draw and the configurators of forms
-- (framework/widgets, most of framework/dsl and component), the API (api) and what only transports
-- in the client, the services in Kotlin and Java, and kaniko, which is another project's.
pub mod Common
pub mod Extensions
pub mod Pattern
pub mod Model
pub mod Service
pub mod Loader
pub mod Client
pub mod Context
pub mod Card
pub mod Events
pub mod Page
pub mod Validator
pub mod Widget
pub mod Tests
